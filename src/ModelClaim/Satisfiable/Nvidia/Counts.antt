-- ===== src/ModelClaim/Satisfiable/Nvidia/Counts.antt =====
-- The loops of EvaluateNvidiaSlices, and the list of devices that they count.
use llmfit_dra.Prelude.{
  String, ◌≤◌, ◌≡◌, refl, List, [], ◌∷◌, Bool, arith, ◌&&◌, not, select, length, if◌then◌else◌,
}
use llmfit_dra.Prelude.Maps.{GoMap}
use llmfit_dra.Prelude.Int64.{ℤ}
use llmfit_dra.Index.{NvidiaBoard, NvidiaBoards}
use llmfit_dra.Index.Boards.{board_passes}
use llmfit_dra.Resource.{ResourceSlice, Device}
use llmfit_dra.ModelClaim.Backend.{nvidia_driver_domain, nvidia_branches_for}
use llmfit_dra.ModelClaim.Bounds.{Bounds}
use llmfit_dra.ModelClaim.Satisfiable.Pools.{current_pool_gens}
use llmfit_dra.ModelClaim.Satisfiable.Tally.{count_fit}
use llmfit_dra.ModelClaim.Satisfiable.Tally.Matching.{
  matches, matching, is_held, tally_all, tally_all-append, total-counts,
}
use llmfit_dra.ModelClaim.Satisfiable.Assess.{Query}
use llmfit_dra.ModelClaim.Satisfiable.Score.{Float}
use llmfit_dra.ModelClaim.Satisfiable.Nvidia.{text_at, wants_type, assess_nvidia}
use llmfit_dra.ModelClaim.Satisfiable.Nvidia.Scan.{
  NvidiaScan, scan_nvidia_device, scan_nvidia_devices, scan_nvidia_slices, first_nvidia_scan,
  evaluate_nvidia_slices,
}

-- The device passes the tests on its own board.
abbrev pub passes_on : Query → Device → NvidiaBoard → Bool
passes_on q dev board = (assess_nvidia q board dev).mem_ok && (assess_nvidia q board dev).sm_ok

-- A device of a wanted type and a known board that meets the bounds.
abbrev pub meets_nvidia : Query → NvidiaBoards → Device → Bool
meets_nvidia q boards dev =
    wants_type (nvidia_branches_for q.class) (text_at dev "type")
    && board_passes (passes_on q dev) boards (text_at dev "productName")

module _ (fl : Float) (q : Query) (allocated : GoMap String) (boards : NvidiaBoards) where
  scan_nvidia_device_lem :
      (slice : ResourceSlice) (dev : Device) (st : NvidiaScan fl.F)
      → (scan_nvidia_device fl q allocated boards slice dev st).tally
        ≡ (if meets_nvidia q boards dev then count_fit allocated slice dev st.tally else st.tally)
  unfolding scan_nvidia_device
  scan_nvidia_device_lem slice dev st = ground arith

  scan_nvidia_devices_lem :
      (slice : ResourceSlice) (devs : List Device) (st : NvidiaScan fl.F)
      → (scan_nvidia_devices fl q allocated boards slice devs st).tally
        ≡ tally_all allocated (matches (meets_nvidia q boards) slice devs) st.tally
  unfolding scan_nvidia_devices
  scan_nvidia_devices_lem slice [] st = refl
  scan_nvidia_devices_lem slice (dev ∷ rest) st = ground (
    arith,
    scan_nvidia_devices_lem slice rest (scan_nvidia_device fl q allocated boards slice dev st),
    scan_nvidia_device_lem slice dev st,
  )

  scan_nvidia_slices_lem :
      (gens : GoMap ℤ) (slices : List ResourceSlice) (st : NvidiaScan fl.F)
      → (scan_nvidia_slices fl q allocated boards gens slices st).tally
        ≡ tally_all allocated
            (matching (meets_nvidia q boards) nvidia_driver_domain gens slices)
            st.tally
  unfolding scan_nvidia_slices
  scan_nvidia_slices_lem gens [] st = refl
  scan_nvidia_slices_lem gens (slice ∷ rest) st = ground (
    arith,
    scan_nvidia_slices_lem gens rest st,
    scan_nvidia_slices_lem gens rest
        (scan_nvidia_devices fl q allocated boards slice slice.devices st),
    scan_nvidia_devices_lem slice slice.devices st,
    tally_all-append allocated (matches (meets_nvidia q boards) slice slice.devices)
        (matching (meets_nvidia q boards) nvidia_driver_domain gens rest) st.tally,
  )

-- The devices that meet the bounds, among the current slices.
abbrev pub found_nvidia :
    List ResourceSlice → Bounds → String → ℤ → NvidiaBoards → List (ResourceSlice × Device)
found_nvidia slices b class c boards =
    matching (meets_nvidia (record { bounds = b; class = class; min_compute = c }) boards)
      nvidia_driver_domain (current_pool_gens slices nvidia_driver_domain) slices

-- The counts are those of the devices found: all of them, and those that no claim holds. There are
-- no more nodes and no more available devices than devices.
pub evaluate_nvidia_slices_counts :
    (fl : Float) (quote : String → String) (slices : List ResourceSlice) (allocated : GoMap String)
    (b : Bounds) (class : String) (c : ℤ) (boards : NvidiaBoards)
    → let result = evaluate_nvidia_slices fl quote slices allocated b class c boards in
      let found = found_nvidia slices b class c boards in
      (result.devices ≡ length found)
      × (result.available ≡ length (select (λ e. not (is_held allocated e)) found))
      × (result.nodes ≤ result.devices)
      × (result.available ≤ result.devices)
unfolding evaluate_nvidia_slices
evaluate_nvidia_slices_counts fl quote slices allocated b class c boards =
    let q : Query = record { bounds = b; class = class; min_compute = c } in
    let gens = current_pool_gens slices nvidia_driver_domain in
    let e =
      scan_nvidia_slices_lem fl q allocated boards gens slices
        (first_nvidia_scan fl q allocated boards) in
    let counts = total-counts allocated (found_nvidia slices b class c boards) in rw e counts
