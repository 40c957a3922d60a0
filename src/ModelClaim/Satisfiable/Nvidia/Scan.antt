-- ===== src/ModelClaim/Satisfiable/Nvidia/Scan.antt =====
-- EvaluateNvidiaSlices of satisfiable_nvidia.go: the loops, and the result.
use Prim.Native.String.{◌++◌}
use llmfit_dra.Prelude.{
  String, ℕ, none, some, List, [], ◌∷◌, Bool, true, ◌&&◌, ◌==◌, if◌then◌else◌, ltb, eqb,
}
use llmfit_dra.Prelude.Maps.{GoMap, insert, keys}
use llmfit_dra.Prelude.Text.{join_with, sort_strings}
use llmfit_dra.Prelude.Int64.{ℤ, pos, ltb64}
use llmfit_dra.Index.{NvidiaBoard, NvidiaBoards, by_product_name}
use llmfit_dra.Resource.{ResourceSlice, Device}
use llmfit_dra.ModelClaim.Backend.{nvidia_driver_domain, nvidia_branches_for}
use llmfit_dra.ModelClaim.Bounds.{Bounds}
use llmfit_dra.ModelClaim.Satisfiable.Pools.{current_pool_gens, is_current}
use llmfit_dra.ModelClaim.Satisfiable.Score.{Float}
use llmfit_dra.ModelClaim.Satisfiable.Assess.{Query}
use llmfit_dra.ModelClaim.Satisfiable.Tally.{
  Tally, no_devices, node_of, count_fit, Candidates, candidates_of,
}
use llmfit_dra.ModelClaim.Satisfiable.Nvidia.{
  text_at, wants_type, assess_nvidia, derived_bandwidth, nvidia_miss,
}

pub record NvidiaScan (F : Type 0) : Type 0 where
  pub tally : Tally
  pub best_msg : String
  pub best_score : F
  pub unknown_boards : GoMap Bool

module _ (fl : Float) (q : Query) (allocated : GoMap String) (boards : NvidiaBoards) where
  open fl use {F, of_int, of_uint, div, gt, zero_score, minus_one}

  unfoldable pub nvidia_score : NvidiaBoard → Device → F
  nvidia_score board dev =
      if ltb 0 q.bounds.min_bandwidth_gbs && ltb64 (pos 0) (derived_bandwidth board dev)
      then div (of_int (derived_bandwidth board dev)) (of_uint q.bounds.min_bandwidth_gbs)
      else zero_score

  unfoldable pub judge_nvidia : ResourceSlice → Device → NvidiaBoard → NvidiaScan F → NvidiaScan F
  judge_nvidia slice dev board st =
      let v = assess_nvidia q board dev in
      if v.mem_ok && v.sm_ok
      then record st { tally = count_fit allocated slice dev st.tally }
      else if gt (nvidia_score board dev) st.best_score
      then record st {
        best_score = nvidia_score board dev;
        best_msg = nvidia_miss q (node_of slice) board dev v;
      }
      else st

  unfoldable pub scan_nvidia_device : ResourceSlice → Device → NvidiaScan F → NvidiaScan F
  unfolding judge_nvidia
  scan_nvidia_device slice dev st =
      if wants_type (nvidia_branches_for q.class) (text_at dev "type")
      then (elim (by_product_name boards (text_at dev "productName")) [
        | none ↦ record st {
          unknown_boards = insert (text_at dev "productName") true st.unknown_boards;
        }
        | some board ↦ judge_nvidia slice dev board st
      ])
      else st

  unfoldable pub scan_nvidia_devices : ResourceSlice → List Device → NvidiaScan F → NvidiaScan F
  scan_nvidia_devices slice [] st = st
  scan_nvidia_devices slice (dev ∷ rest) st =
      scan_nvidia_devices slice rest (scan_nvidia_device slice dev st)

  unfoldable pub scan_nvidia_slices : GoMap ℤ → List ResourceSlice → NvidiaScan F → NvidiaScan F
  scan_nvidia_slices gens [] st = st
  scan_nvidia_slices gens (slice ∷ rest) st = scan_nvidia_slices gens rest (
      if is_current nvidia_driver_domain gens slice
      then scan_nvidia_devices slice slice.devices st
      else st)

  abbrev pub first_nvidia_scan : NvidiaScan F
  first_nvidia_scan = record {
    tally = no_devices;
    best_msg = "";
    best_score = minus_one;
    unknown_boards = [];
  }

quote_names : (String → String) → List String → List String
quote_names quote [] = []
quote_names quote (n ∷ rest) = quote n ∷ quote_names quote rest

-- `c.Shortfall`; `quote` is `%q`.
unfoldable pub nvidia_shortfall :
    (String → String) → NvidiaBoards → ℕ → String → GoMap Bool → String
unfolding quote_names
nvidia_shortfall quote boards devices best unknown =
    if eqb devices 0
    then (let msg =
          if best == ""
          then "no gpu.nvidia.com devices published — is the NVIDIA DRA driver installed?"
          else best in
        elim unknown [
          | [] ↦ msg
          | e ∷ r ↦
              "unknown NVIDIA board(s) "
              ++ join_with ", " (sort_strings (quote_names quote (keys (e ∷ r))))
              ++ " not in llmfit board table "
              ++ boards.version
              ++ " — devices fail closed; "
              ++ msg
        ])
    else ""

-- `EvaluateNvidiaSlices`
unfoldable pub evaluate_nvidia_slices :
    Float
    → (String → String)
    → List ResourceSlice
    → GoMap String
    → Bounds
    → String
    → ℤ
    → NvidiaBoards
    → Candidates
evaluate_nvidia_slices fl quote slices allocated b class min_compute boards =
    let q : Query = record { bounds = b; class = class; min_compute = min_compute } in
    let st =
      scan_nvidia_slices fl q allocated boards (current_pool_gens slices nvidia_driver_domain)
        slices (first_nvidia_scan fl q allocated boards) in
    candidates_of st.tally
      (nvidia_shortfall quote boards st.tally.devices st.best_msg st.unknown_boards)
