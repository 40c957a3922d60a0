-- ===== src/ModelClaim/Satisfiable/Nvidia.antt =====
-- EvaluateNvidiaSlices of satisfiable_nvidia.go: the assessment of one device, and its message.
pub mod Scan
pub mod Shortfall
pub mod Counts
use Prim.Native.String.{◌++◌}
use mathlib.Core.List
use llmfit_dra.Prelude.{
  String, ℕ, Option, none, some, List, [], ◌∷◌, Bool, true, false, not, ◌||◌, ◌&&◌, ◌==◌,
  if◌then◌else◌, ltb, eqb,
}
use llmfit_dra.Prelude.Maps.{GoMap, lookup, insert, keys}
use llmfit_dra.Prelude.Text.{decimal, join_with, sort_strings}
use llmfit_dra.Prelude.Int64.{ℤ, pos, mul64, div64, ltb64, leb64, decimal64}
use llmfit_dra.Index.{NvidiaBoard, NvidiaBoards, by_product_name}
use llmfit_dra.Resource.{ResourceSlice, Device, string_at}
use llmfit_dra.ModelClaim.Backend.{nvidia_driver_domain, nvidia_branches_for}
use llmfit_dra.ModelClaim.Bounds.{Bounds, nvidia_mem_floor_mib}
use llmfit_dra.ModelClaim.Thresholds.{mig_threshold_mib, mig_min_sms, gpu_admits}
use llmfit_dra.ModelClaim.Satisfiable.Pools.{current_pool_gens, is_current}
use llmfit_dra.ModelClaim.Satisfiable.Score.{Float}
use llmfit_dra.ModelClaim.Satisfiable.Assess.{Query, read_or}
use llmfit_dra.ModelClaim.Satisfiable.Tally.{
  Tally, no_devices, node_of, count_fit, Candidates, candidates_of,
}

abbrev pub text_at : Device → String → String
text_at dev k = elim (string_at dev.attributes k) [ none ↦ "" | some s ↦ s ]

-- The three tests of the `continue` on the device type.
unfoldable pub wants_type : Bool × Bool → String → Bool
wants_type (want_mig, want_gpu) kind = not (
    kind == "mig" && not want_mig
    || kind == "gpu" && not want_gpu
    || not (kind == "mig") && not (kind == "gpu"))

abbrev pub mem_mib : Device → ℤ
mem_mib dev = elim (lookup "memory" dev.capacity) [
  | none ↦ pos 0
  | some v ↦ div64 v (mul64 (pos 1024) (pos 1024))
]

pub record NvidiaVerdict : Type 0 where
  pub is_mig : Bool
  pub feasible : Bool
  pub threshold : ℤ
  pub min_sms : ℤ
  pub mem_ok : Bool
  pub sm_ok : Bool

both_thresholds : ℤ → Option ℤ → Option ℤ → Bool × ℤ × ℤ
both_thresholds floor (some thr) (some sms) = (true, thr, sms)
both_thresholds floor thr sms = (false, read_or (pos 0) thr, read_or (pos 0) sms)

-- feasible, thrMiB, minSMs
unfoldable pub admission : Query → Bool → NvidiaBoard → Bool × ℤ × ℤ
unfolding both_thresholds
admission q is_mig board =
    if is_mig
    then both_thresholds (pos 0) (mig_threshold_mib board q.bounds)
        (mig_min_sms board q.min_compute)
    else (gpu_admits board q.bounds q.min_compute, nvidia_mem_floor_mib q.bounds, pos 0)

unfoldable pub assess_nvidia : Query → NvidiaBoard → Device → NvidiaVerdict
unfolding admission
assess_nvidia q board dev =
    let is_mig = text_at dev "type" == "mig" in
    let a = admission q is_mig board in
    record {
      is_mig = is_mig;
      feasible = a.0;
      threshold = a.1;
      min_sms = a.2;
      mem_ok = a.0 && leb64 a.1 (mem_mib dev);
      sm_ok =
          if is_mig && ltb64 (pos 0) a.2
          then leb64 a.2 (read_or (pos 0) (lookup "multiprocessors" dev.capacity))
          else true;
    }

abbrev pub derived_bandwidth : NvidiaBoard → Device → ℤ
derived_bandwidth board dev =
    if ltb64 (pos 0) board.memory_mib
    then div64 (mul64 board.memory_bandwidth_gbs (mem_mib dev)) board.memory_mib
    else pos 0

memory_reason : Query → NvidiaBoard → Device → NvidiaVerdict → List String
memory_reason q board dev v =
    if ltb64 (mem_mib dev) v.threshold
    then (if v.is_mig
        then "memory "
          ++ decimal64 (mem_mib dev)
          ++ "Mi < "
          ++ decimal64 v.threshold
          ++ "Mi threshold (derived bandwidth "
          ++ decimal64 (derived_bandwidth board dev)
          ++ " < "
          ++ decimal q.bounds.min_bandwidth_gbs
          ++ " GB/s at board peak "
          ++ decimal64 board.memory_bandwidth_gbs
          ++ " GB/s)"
        else "memory " ++ decimal64 (mem_mib dev) ++ "Mi < " ++ decimal64 v.threshold ++ "Mi")
      ∷ []
    else []

sm_reason : Query → NvidiaVerdict → List String
sm_reason q v =
    if v.sm_ok
    then []
    else ("multiprocessors below "
        ++ decimal64 v.min_sms
        ++ " (compute floor "
        ++ decimal64 q.min_compute
        ++ " TFLOPS)")
      ∷ []

unfoldable pub nvidia_reasons : Query → NvidiaBoard → Device → NvidiaVerdict → List String
unfolding memory_reason sm_reason
nvidia_reasons q board dev v =
    if v.feasible
    then List.◌++◌ (memory_reason q board dev v) (sm_reason q v)
    else ("no partition of "
        ++ text_at dev "productName"
        ++ " can meet the bounds (board peak "
        ++ decimal64 board.memory_bandwidth_gbs
        ++ " GB/s, "
        ++ decimal64 board.memory_slices
        ++ " slices — llmfit derived model)")
      ∷ []

unfoldable pub device_label : Device → NvidiaVerdict → String
device_label dev v =
    if v.is_mig
    then (elim (string_at dev.attributes "profile") [
      | none ↦ dev.name
      | some p ↦ dev.name ++ " profile " ++ p
    ])
    else dev.name

unfoldable pub nvidia_miss : Query → String → NvidiaBoard → Device → NvidiaVerdict → String
nvidia_miss q node board dev v =
    "closest NVIDIA device "
    ++ device_label dev v
    ++ " ("
    ++ text_at dev "productName"
    ++ ", node "
    ++ node
    ++ "): "
    ++ join_with ", " (sort_strings (nvidia_reasons q board dev v))
