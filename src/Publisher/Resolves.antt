-- ===== src/Publisher/Resolves.antt =====
-- Publisher and kubelet plugin: the devices that BuildDevices publishes, in the snapshot that
-- Inventory.Set keeps of the same probe.
use llmfit_dra.Prelude.{
  String, ◌≡◌, Option, none, some, List, [], ◌∷◌, Bool, true, not, ◌&&◌, ◌||◌, ◌==◌, if◌then◌else◌,
  arith, is_some, refl, eq_iff,
}
use llmfit_dra.Prelude.Maps.{lookup, insert, lookup-insert}
use llmfit_dra.Llmfit.{FloatOps}
use llmfit_dra.Probe.{ProbeDevice, device_name}
use llmfit_dra.NodePlugin.Inventory.{Inventory, add_probed, set_inventory, lookup_device}
use llmfit_dra.Publisher.Match.{probed_gpus}
use llmfit_dra.Publisher.Build.{Sources, build_devices}
use llmfit_dra.Publisher.Names.{first_named, find_published, entry_of, build_devices-find}

-- No two probed devices have the same name.
abbrev pub distinct_probed : List ProbeDevice → Bool
distinct_probed [] = true
distinct_probed (d ∷ rest) =
    not (is_some (first_named (device_name d) rest)) && distinct_probed rest

-- The last device of a name.
abbrev last_named : String → List ProbeDevice → Option ProbeDevice → Option ProbeDevice
last_named name [] found = found
last_named name (d ∷ rest) found =
    last_named name rest (if device_name d == name then some d else found)

add_probed-lookup :
    (name : String) (devices : List ProbeDevice) (inv : Inventory)
    → lookup name (add_probed devices inv) ≡ last_named name devices (lookup name inv)
unfolding add_probed
add_probed-lookup name [] inv = refl
add_probed-lookup name (d ∷ rest) inv =
    rw
      (
        add_probed-lookup name rest (insert (device_name d) d inv),
        lookup-insert (device_name d) name d inv,
      )
      refl

last_named-none :
    (name : String) (devices : List ProbeDevice) (found : Option ProbeDevice)
    → first_named name devices ≡ none
    → last_named name devices found ≡ found
last_named-none name [] found h = refl
last_named-none name (d ∷ rest) found h = ground (arith, last_named-none name rest found)

last_named-is_some :
    (name : String) (devices : List ProbeDevice) (found : Option ProbeDevice)
    → is_some (last_named name devices found)
      ≡ (is_some found || is_some (first_named name devices))
last_named-is_some name [] found = ground arith
last_named-is_some name (d ∷ rest) found =
    ground (arith, last_named-is_some name rest found, last_named-is_some name rest (some d))

last_named-first :
    (name : String) (devices : List ProbeDevice)
    → distinct_probed devices ≡ true
    → last_named name devices none ≡ first_named name devices
last_named-first name [] h = refl
last_named-first name (d ∷ rest) h = ground (
  arith,
  last_named-first name rest,
  last_named-none name rest (some d),
  eq_iff (device_name d) name,
)

set_inventory-lookup :
    (name : String) (devices : List ProbeDevice)
    → lookup_device (set_inventory devices) name ≡ last_named name devices none
unfolding set_inventory lookup_device lookup
set_inventory-lookup name devices = add_probed-lookup name devices []

module _ {F : Type 0} (ops : FloatOps F) (src : Sources F) where
  -- Prepare finds a device under a name exactly when a device of that name is published.
  pub published-resolves :
      (devices : List ProbeDevice) (name : String)
      → is_some (lookup_device (set_inventory devices) name)
        ≡ is_some (find_published name (build_devices ops devices src))
  published-resolves devices name = ground (
    arith,
    set_inventory-lookup name devices,
    last_named-is_some name devices none,
    (build_devices-find ops src devices).1 name,
  )

  -- Where the probed devices have distinct names, the device that prepare finds under a name is
  -- the one whose entry is published under it.
  pub published-resolves_same :
      (devices : List ProbeDevice) (name : String)
      → distinct_probed devices ≡ true
      → find_published name (build_devices ops devices src)
        ≡ entry_of ops src (probed_gpus devices) (lookup_device (set_inventory devices) name)
  published-resolves_same devices name h =
      rw
        (
          (build_devices-find ops src devices).1 name,
          set_inventory-lookup name devices,
          last_named-first name devices h,
        )
        refl
