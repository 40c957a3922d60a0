-- ===== src/Publisher/Coexist.antt =====
-- coexist.go: which other DRA drivers publish for the node.
use llmfit_dra.Prelude.{
  String, ◌≡◌, Option, none, some, List, [], ◌∷◌, Bool, true, false, not, ◌&&◌, ◌||◌, ◌==◌,
  if◌then◌else◌, arith, refl, ◌∙◌, any,
}
use llmfit_dra.Prelude.Maps.{GoMap, lookup, insert, lookup-insert, has_key, keys}
use llmfit_dra.Prelude.Text.{split_on, sort_strings, any-sort_strings}
use llmfit_dra.Resource.{ResourceSlice}
use llmfit_dra.ModelClaim.Backend.{driver_domain}
use llmfit_dra.ModelClaim.Template.{trim_space}

-- The loop of `ParseVendorDrivers`.
unfoldable pub add_drivers : List String → GoMap Bool → GoMap Bool
add_drivers [] out = out
add_drivers (d ∷ rest) out =
    add_drivers rest (if trim_space d == "" then out else insert (trim_space d) true out)

-- `ParseVendorDrivers`
unfoldable pub parse_vendor_drivers : String → GoMap Bool
unfolding add_drivers
parse_vendor_drivers flag = add_drivers (split_on b',' flag) []

-- The drivers seen so far.
pub record Seen : Type 0 where
  pub present : Bool
  pub unknown : GoMap Bool

unfoldable pub note_driver : GoMap Bool → String → Seen → Seen
note_driver vendors driver seen =
    if has_key driver vendors
    then record seen { present = true }
    else if driver == driver_domain
    then seen
    else record seen { unknown = insert driver true seen.unknown }

-- The loop over the slices.
unfoldable pub note_drivers : GoMap Bool → List ResourceSlice → Seen → Seen
unfolding note_driver
note_drivers vendors [] seen = seen
note_drivers vendors (s ∷ rest) seen = note_drivers vendors rest (note_driver vendors s.driver seen)

-- `VendorGPUsPresent`. The slices of the node are the API server's answer, `none` an error.
unfoldable pub vendor_gpus_present :
    GoMap Bool → Option (List ResourceSlice) → Option (Bool × List String)
unfolding note_drivers
vendor_gpus_present [] answer = some (false, [])
vendor_gpus_present (v ∷ vendors) none = none
vendor_gpus_present (v ∷ vendors) (some slices) =
    let seen = note_drivers (v ∷ vendors) slices (record { present = false; unknown = [] }) in
    some (seen.present, sort_strings (keys seen.unknown))

abbrev pub by_vendor : GoMap Bool → ResourceSlice → Bool
by_vendor vendors s = has_key s.driver vendors

abbrev none_seen : Seen
none_seen = record { present = false; unknown = [] }

abbrev pub by_stranger : GoMap Bool → String → ResourceSlice → Bool
by_stranger vendors driver s =
    s.driver == driver && not (has_key s.driver vendors) && not (s.driver == driver_domain)

note_drivers-present :
    (vendors : GoMap Bool) (slices : List ResourceSlice) (seen : Seen)
    → (note_drivers vendors slices seen).present ≡ (seen.present || any (by_vendor vendors) slices)
unfolding note_drivers
note_drivers-present vendors [] seen = ground arith
note_drivers-present vendors (s ∷ rest) seen =
    ground (arith, note_drivers-present vendors rest (note_driver vendors s.driver seen))

note_driver-unknown :
    (vendors : GoMap Bool) (driver wanted : String) (seen : Seen)
    → has_key wanted (note_driver vendors driver seen).unknown ≡ (
        has_key wanted seen.unknown
        || driver == wanted && not (has_key driver vendors) && not (driver == driver_domain))
unfolding note_driver
note_driver-unknown vendors driver wanted seen =
    ground (arith, lookup-insert driver wanted true seen.unknown)

note_drivers-unknown :
    (vendors : GoMap Bool) (wanted : String) (slices : List ResourceSlice) (seen : Seen)
    → has_key wanted (note_drivers vendors slices seen).unknown
      ≡ (has_key wanted seen.unknown || any (by_stranger vendors wanted) slices)
unfolding note_drivers
note_drivers-unknown vendors wanted [] seen = ground arith
note_drivers-unknown vendors wanted (s ∷ rest) seen = ground (
  arith,
  note_drivers-unknown vendors wanted rest (note_driver vendors s.driver seen),
  note_driver-unknown vendors s.driver wanted seen,
)

any-keys : (wanted : String) (m : GoMap Bool) → any (λ k. k == wanted) (keys m) ≡ has_key wanted m
unfolding lookup
any-keys wanted [] = refl
any-keys wanted ((k, v) ∷ m) = ground (arith, any-keys wanted m)

-- The answer for a set of known drivers and the slices of the node: whether a slice is by a known
-- driver, and the drivers of its slices that are neither known nor ours.
pub record IsSurvey (vendors : GoMap Bool) (slices : List ResourceSlice) (r : Bool × List String)
    : Type 0 where
  pub present : r.0 ≡ any (by_vendor vendors) slices
  pub others :
      (driver : String) → any (λ k. k == driver) r.1 ≡ any (by_stranger vendors driver) slices

-- With a known driver configured and the slices of the node listed, VendorGPUsPresent succeeds: it
-- tells whether a slice of the node is by a known driver, and lists exactly the drivers of its
-- slices that are neither known nor ours.
pub vendor_gpus_present-IsSurvey :
    (v : String × Bool) (vendors : GoMap Bool) (slices : List ResourceSlice)
    → (r : Bool × List String) × vendor_gpus_present (v ∷ vendors) (some slices) ≡ some r
      × IsSurvey (v ∷ vendors) slices r
unfolding vendor_gpus_present lookup
vendor_gpus_present-IsSurvey v vendors slices = (
  _,
  refl,
  record {
    present = ground (arith, note_drivers-present (v ∷ vendors) slices none_seen);
    others = λ driver.
        any-sort_strings (λ k. k == driver) _
        ∙ any-keys driver _
        ∙ note_drivers-unknown (v ∷ vendors) driver slices none_seen;
  },
)
