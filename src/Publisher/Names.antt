-- ===== src/Publisher/Names.antt =====
-- The loop of BuildDevices: which probed devices are published, and under which names.
use llmfit_dra.Prelude.{
  String, ◌≡◌, Option, none, some, List, [], ◌∷◌, Bool, true, false, not, ◌&&◌, ◌==◌, if◌then◌else◌,
  arith, eq_iff, eq_refl, is_some, refl, All,
}
use llmfit_dra.Prelude.Maps.{GoMap, lookup, insert, lookup-insert, has_key}
use llmfit_dra.Resource.{Device}
use llmfit_dra.Llmfit.{FloatOps}
use llmfit_dra.Probe.{ProbeDevice, device_name}
use llmfit_dra.Publisher.Match.{GpuCounts, probed_gpus}
use llmfit_dra.Publisher.Build.{Sources, published, publish_devices, build_devices}

-- The first device of a name, among the probed and among the published.
abbrev pub first_named : String → List ProbeDevice → Option ProbeDevice
first_named name [] = none
first_named name (d ∷ rest) = if device_name d == name then some d else first_named name rest

abbrev pub find_published : String → List Device → Option Device
find_published name [] = none
find_published name (d ∷ rest) = if d.name == name then some d else find_published name rest

abbrev pub distinct_names : List Device → Bool
distinct_names [] = true
distinct_names (d ∷ rest) = not (is_some (find_published d.name rest)) && distinct_names rest

module _ {F : Type 0} (ops : FloatOps F) (src : Sources F) where
  abbrev pub entry_of : GpuCounts → Option ProbeDevice → Option Device
  entry_of counts none = none
  entry_of counts (some d) = some (published ops src counts d)

  published-name :
      (counts : GpuCounts) (d : ProbeDevice) → (published ops src counts d).name ≡ device_name d
  unfolding published
  published-name counts d = refl

  publish_devices-find :
      (counts : GpuCounts) (name : String) (devices : List ProbeDevice) (names : GoMap Bool)
      → find_published name (publish_devices ops src counts devices names)
        ≡ (if has_key name names then none else entry_of counts (first_named name devices))
  unfolding publish_devices
  publish_devices-find counts name [] names = ground arith
  publish_devices-find counts name (d ∷ rest) names = ground (
    arith,
    publish_devices-find counts name rest names,
    publish_devices-find counts name rest (insert (device_name d) true names),
    lookup-insert (device_name d) name true names,
    eq_iff (device_name d) name,
    published-name counts d,
  )

  publish_devices-distinct :
      (counts : GpuCounts) (devices : List ProbeDevice) (names : GoMap Bool)
      → distinct_names (publish_devices ops src counts devices names) ≡ true
  unfolding publish_devices
  publish_devices-distinct counts [] names = refl
  publish_devices-distinct counts (d ∷ rest) names = ground (
    arith,
    publish_devices-distinct counts rest names,
    publish_devices-distinct counts rest (insert (device_name d) true names),
    publish_devices-find counts (device_name d) rest (insert (device_name d) true names),
    lookup-insert (device_name d) (device_name d) true names,
    eq_refl (device_name d),
    published-name counts d,
  )

  All-if :
      (P : Device → Type 0) (b : Bool) (x : Device) (xs : List Device)
      → P x
      → All P xs
      → All P (if b then xs else x ∷ xs)
  All-if P true x xs px pxs = pxs
  All-if P false x xs px pxs = (px, pxs)

  publish_devices-All :
      (P : Device → Type 0) (counts : GpuCounts)
      → ((d : ProbeDevice) → P (published ops src counts d))
      → (devices : List ProbeDevice) (names : GoMap Bool)
      → All P (publish_devices ops src counts devices names)
  unfolding publish_devices
  publish_devices-All P counts h [] names = tt
  publish_devices-All P counts h (d ∷ rest) names =
      All-if P (has_key (device_name d) names) (published ops src counts d) _ (h d) (
        publish_devices-All P counts h rest
          (if has_key (device_name d) names then names else insert (device_name d) true names))

  -- What holds for the entry of every probed device holds for every published one.
  pub build_devices-All :
      (P : Device → Type 0) (devices : List ProbeDevice)
      → ((d : ProbeDevice) → P (published ops src (probed_gpus devices) d))
      → All P (build_devices ops devices src)
  unfolding build_devices
  build_devices-All P devices h = publish_devices-All P (probed_gpus devices) h devices []

  -- No two published devices have the same name, and under each name the first probed device of
  -- that name is published: none if no probed device has it.
  pub build_devices-find :
      (devices : List ProbeDevice)
      → distinct_names (build_devices ops devices src) ≡ true
        × ((name : String)
            → find_published name (build_devices ops devices src)
              ≡ entry_of (probed_gpus devices) (first_named name devices))
  unfolding build_devices lookup
  build_devices-find devices = (
    publish_devices-distinct (probed_gpus devices) devices [],
    λ name. publish_devices-find (probed_gpus devices) name devices [],
  )
