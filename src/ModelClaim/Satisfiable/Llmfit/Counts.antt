-- ===== src/ModelClaim/Satisfiable/Llmfit/Counts.antt =====
-- The loop of EvaluateSlices, and the list of devices that it counts.
use llmfit_dra.Prelude.{String, ◌≡◌, refl, List, [], ◌∷◌, Bool, false, arith, if◌then◌else◌}
use llmfit_dra.Prelude.Maps.{GoMap}
use llmfit_dra.Prelude.Int64.{ℤ}
use llmfit_dra.Resource.{ResourceSlice, Device}
use llmfit_dra.ModelClaim.Backend.{driver_domain}
use llmfit_dra.ModelClaim.Satisfiable.Tally.{count_fit}
use llmfit_dra.ModelClaim.Satisfiable.Tally.Matching.{
  matches, matching, tally_all, tally_all-append,
}
use llmfit_dra.ModelClaim.Satisfiable.Assess.{
  Query, eligible, skipped, excluded, standing, assess, fits,
}
use llmfit_dra.ModelClaim.Satisfiable.Score.{Float}
use llmfit_dra.ModelClaim.Satisfiable.Llmfit.{Scan, scan_device, scan_devices, scan_slices}

-- A device that the class does not exclude and that meets the bounds.
abbrev pub meets : Query → Device → Bool
meets q dev = elim (standing q.class dev) [
  | skipped ↦ false
  | excluded ↦ false
  | eligible ↦ fits (assess q dev)
]

module _ (fl : Float) (q : Query) (allocated : GoMap String) where
  scan_device_lem :
      (slice : ResourceSlice) (dev : Device) (st : Scan fl.F)
      → (scan_device fl q allocated slice dev st).tally
        ≡ (if meets q dev then count_fit allocated slice dev st.tally else st.tally)
  unfolding scan_device
  scan_device_lem slice dev st = ground arith

  scan_devices_lem :
      (slice : ResourceSlice) (devs : List Device) (st : Scan fl.F)
      → (scan_devices fl q allocated slice devs st).tally
        ≡ tally_all allocated (matches (meets q) slice devs) st.tally
  unfolding scan_devices
  scan_devices_lem slice [] st = refl
  scan_devices_lem slice (dev ∷ rest) st = ground (
    arith,
    scan_devices_lem slice rest (scan_device fl q allocated slice dev st),
    scan_device_lem slice dev st,
  )

  pub scan_slices_lem :
      (gens : GoMap ℤ) (slices : List ResourceSlice) (st : Scan fl.F)
      → (scan_slices fl q allocated gens slices st).tally
        ≡ tally_all allocated (matching (meets q) driver_domain gens slices) st.tally
  unfolding scan_slices
  scan_slices_lem gens [] st = refl
  scan_slices_lem gens (slice ∷ rest) st = ground (
    arith,
    scan_slices_lem gens rest st,
    scan_slices_lem gens rest (scan_devices fl q allocated slice slice.devices st),
    scan_devices_lem slice slice.devices st,
    tally_all-append allocated (matches (meets q) slice slice.devices)
        (matching (meets q) driver_domain gens rest) st.tally,
  )
