-- ===== src/ModelClaim/Satisfiable/Llmfit.antt =====
-- EvaluateSlices of satisfiable.go: the loop over slices and devices.
pub mod Counts
pub mod Evaluate
use llmfit_dra.Prelude.{
  String, ℕ, ◌+◌, ◌-◌, Option, none, some, List, [], ◌∷◌, Bool, true, false, ◌||◌, ◌&&◌, ◌==◌,
  if◌then◌else◌, ltb, eqb,
}
use llmfit_dra.Prelude.Maps.{GoMap, lookup}
use llmfit_dra.Prelude.Int64.{ℤ, pos, negsuc, of_u64, mul64, div64, ltb64, leb64, eqb64, decimal64}
use llmfit_dra.Resource.{ResourceSlice, Device}
use llmfit_dra.ModelClaim.Backend.{driver_domain}
use llmfit_dra.ModelClaim.Bounds.{Bounds}
use llmfit_dra.ModelClaim.Satisfiable.Pools.{current_pool_gens, is_current}
use llmfit_dra.ModelClaim.Satisfiable.Score.{Float}
use llmfit_dra.ModelClaim.Satisfiable.Tally.{
  Tally, no_devices, node_of, count_fit, Candidates, candidates_of,
}
use llmfit_dra.ModelClaim.Satisfiable.Assess.{
  Query, Verdict, skipped, excluded, eligible, standing, assess, fits,
}
use llmfit_dra.ModelClaim.Satisfiable.Messages.{
  miss_message, Excluded, none_excluded, note_excluded, shortfall,
}

pub record Scan (F : Type 0) : Type 0 where
  pub tally : Tally
  pub best_msg : String
  pub best_score : F
  pub excluded : Excluded

module _ (fl : Float) (q : Query) (allocated : GoMap String) where
  open fl use {F, of_int, of_uint, add, mul, div, gt, zero_score, one_score, tenth, minus_one}

  add_met : Bool → F → F
  add_met met s = if met then add s one_score else s

  unfoldable pub score : Verdict → F
  unfolding add_met
  score v =
      let met =
        add_met v.healthy_ok
          (add_met v.compute_ok (add_met v.bw_ok (add_met v.mem_ok zero_score))) in
      if ltb 0 q.bounds.min_bandwidth_gbs && ltb64 (pos 0) v.bw
      then add met (mul (div (of_int v.bw) (of_uint q.bounds.min_bandwidth_gbs)) tenth)
      else met

  -- The rest of the loop's body for an eligible device.
  unfoldable pub judge : ResourceSlice → Device → Verdict → Scan F → Scan F
  judge slice dev v st =
      if fits v
      then record st { tally = count_fit allocated slice dev st.tally }
      else if gt (score v) st.best_score
      then record st { best_score = score v; best_msg = miss_message q (node_of slice) dev v }
      else st

  unfoldable pub scan_device : ResourceSlice → Device → Scan F → Scan F
  unfolding judge
  scan_device slice dev st = elim (standing q.class dev) [
    | skipped ↦ st
    | excluded ↦ record st { excluded = note_excluded (node_of slice) dev st.excluded }
    | eligible ↦ judge slice dev (assess q dev) st
  ]

  unfoldable pub scan_devices : ResourceSlice → List Device → Scan F → Scan F
  scan_devices slice [] st = st
  scan_devices slice (dev ∷ rest) st = scan_devices slice rest (scan_device slice dev st)

  unfoldable pub scan_slices : GoMap ℤ → List ResourceSlice → Scan F → Scan F
  scan_slices gens [] st = st
  scan_slices gens (slice ∷ rest) st =
      scan_slices gens rest
        (if is_current driver_domain gens slice then scan_devices slice slice.devices st else st)

  abbrev pub first_scan : Scan F
  first_scan = record {
    tally = no_devices;
    best_msg = "";
    best_score = minus_one;
    excluded = none_excluded;
  }

-- `EvaluateSlices`
unfoldable pub evaluate_slices :
    Float → List ResourceSlice → GoMap String → Bounds → String → ℤ → Candidates
evaluate_slices fl slices allocated b class min_compute =
    let q : Query = record { bounds = b; class = class; min_compute = min_compute } in
    let st =
      scan_slices fl q allocated (current_pool_gens slices driver_domain) slices
        (first_scan fl q allocated) in
    candidates_of st.tally (shortfall st.tally.devices st.best_msg st.excluded)
