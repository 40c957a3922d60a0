-- ===== src/ModelClaim/Satisfiable/Tally/Matching.antt =====
-- What both slice loops count, for any test of a device.
use mathlib.Core.List.{◌++◌}
use llmfit_dra.Prelude.{
  any, ◌⊎◌, String, ◌+◌, ◌≤◌, ◌≡◌, refl, List, [], ◌∷◌, Bool, true, false, arith, ◌&&◌, select,
  length, if◌then◌else◌, inl, not, ◌||◌, ◌==◌, eq_iff, eq_refl, none, some,
}
use llmfit_dra.Prelude.Maps.{GoMap, lookup, has_key, lookup-insert, length-insert}
use llmfit_dra.Prelude.Int64.{ℤ}
use llmfit_dra.Resource.{ResourceSlice, Device}
use llmfit_dra.ModelClaim.Satisfiable.Pools.{is_current}
use llmfit_dra.ModelClaim.Satisfiable.Tally.{Tally, count_fit, device_key, node_of, no_devices}

module _ (meets : Device → Bool) where
  -- The devices of a slice that pass a test, each with the slice.
  abbrev pub matches : ResourceSlice → List Device → List (ResourceSlice × Device)
  matches slice [] = []
  matches slice (dev ∷ rest) =
      if meets dev then (slice, dev) ∷ matches slice rest else matches slice rest

  -- Those of the current slices of a driver.
  abbrev pub matching : String → GoMap ℤ → List ResourceSlice → List (ResourceSlice × Device)
  matching driver gens [] = []
  matching driver gens (slice ∷ rest) =
      if is_current driver gens slice
      then matches slice slice.devices ++ matching driver gens rest
      else matching driver gens rest

-- The tally after the matching devices, one after the other.
abbrev pub tally_all : GoMap String → List (ResourceSlice × Device) → Tally → Tally
tally_all allocated [] t = t
tally_all allocated ((slice, dev) ∷ rest) t =
    tally_all allocated rest (count_fit allocated slice dev t)

module _ (allocated : GoMap String) where
  -- A device that a claim holds.
  abbrev pub is_held : ResourceSlice × Device → Bool
  is_held (slice, dev) = has_key (device_key slice dev) allocated

  -- A device that the claim `holder` holds.
  abbrev pub is_held_by : String → ResourceSlice × Device → Bool
  is_held_by holder (slice, dev) = elim (lookup (device_key slice dev) allocated) [
    | none ↦ false
    | some h ↦ h == holder
  ]

  pub tally_all-append :
      (xs ys : List (ResourceSlice × Device)) (t : Tally)
      → tally_all allocated (xs ++ ys) t ≡ tally_all allocated ys (tally_all allocated xs t)
  tally_all-append [] ys t = refl
  tally_all-append ((s, d) ∷ xs) ys t = tally_all-append xs ys (count_fit allocated s d t)

  pub tally_all-devices :
      (xs : List (ResourceSlice × Device)) (t : Tally)
      → (tally_all allocated xs t).devices ≡ t.devices + length xs
  unfolding count_fit
  tally_all-devices [] t = omega arith
  tally_all-devices ((s, d) ∷ xs) t =
      ground (arith, tally_all-devices xs (count_fit allocated s d t))

  pub tally_all-available :
      (xs : List (ResourceSlice × Device)) (t : Tally)
      → (tally_all allocated xs t).available
        ≡ t.available + length (select (λ e. not (is_held e)) xs)
  unfolding count_fit
  tally_all-available [] t = omega arith
  tally_all-available ((s, d) ∷ xs) t =
      ground (arith, tally_all-available xs (count_fit allocated s d t))

  pub tally_all-held_by :
      (xs : List (ResourceSlice × Device)) (t : Tally)
      → (tally_all allocated xs t).held_by ≡ t.held_by
        ⊎ (any (is_held_by (tally_all allocated xs t).held_by) xs ≡ true)
  unfolding count_fit
  tally_all-held_by [] t = inl refl
  tally_all-held_by ((s, d) ∷ xs) t =
      let t' = count_fit allocated s d t in
      ground (arith, tally_all-held_by xs t', eq_refl (tally_all allocated xs t').held_by)

  pub tally_all-nodes :
      (xs : List (ResourceSlice × Device)) (t : Tally) (n : String)
      → has_key n (tally_all allocated xs t).nodes
        ≡ (has_key n t.nodes || (not (n == "") && any (λ e. node_of e.0 == n) xs))
  unfolding count_fit
  tally_all-nodes [] t n = ground arith
  tally_all-nodes ((s, d) ∷ xs) t n = ground (
    arith,
    tally_all-nodes xs (count_fit allocated s d t) n,
    lookup-insert (node_of s) n true t.nodes,
    eq_iff (node_of s) n,
    eq_iff (node_of s) "",
    eq_iff n "",
  )

pub select-le {ℓ} : {A : Type ℓ} (p : A → Bool) (xs : List A) → length (select p xs) ≤ length xs
select-le p [] = omega arith
select-le p (x ∷ xs) = ground (arith, select-le p xs)

pub count_fit-nodes-le :
    (allocated : GoMap String) (xs : List (ResourceSlice × Device)) (t : Tally)
    → length (tally_all allocated xs t).nodes ≤ length t.nodes + length xs
unfolding count_fit
count_fit-nodes-le allocated [] t = omega arith
count_fit-nodes-le allocated ((s, d) ∷ xs) t = ground (
  arith,
  count_fit-nodes-le allocated xs (count_fit allocated s d t),
  length-insert (node_of s) true t.nodes,
)

module _ (allocated : GoMap String) (found : List (ResourceSlice × Device)) where
  -- The tally of the devices that are found, from none.
  abbrev pub total : Tally
  total = tally_all allocated found no_devices

  -- The counts are those of the devices, and of those that no claim holds; there are no more nodes
  -- and no more available devices than devices.
  pub total-counts :
      (total.devices ≡ length found)
      × (total.available ≡ length (select (λ e. not (is_held allocated e)) found))
      × (length total.nodes ≤ total.devices)
      × (total.available ≤ total.devices)
  total-counts =
      let devices = tally_all-devices allocated found no_devices in
      let available = tally_all-available allocated found no_devices in
      let nodes = count_fit-nodes-le allocated found no_devices in
      let less = select-le (λ e. not (is_held allocated e)) found in
      (omega arith, omega arith, omega arith, omega arith)
