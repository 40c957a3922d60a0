-- ===== src/ModelClaim/Thresholds.antt =====
-- nvidia.go: the floors of a claim as thresholds on a board's MIG partitions, and the check of a
-- whole board.
pub mod Nat
pub mod Machine
pub mod Mig
pub mod Compute
use llmfit_dra.Prelude.{Option, none, some, Bool, true, false, ◌||◌, ◌&&◌, if◌then◌else◌}
use llmfit_dra.Prelude.Int64.{ℤ, pos, of_u64, add64, sub64, mul64, div64, ltb64, leb64}
use llmfit_dra.Index.{NvidiaBoard}
use llmfit_dra.ModelClaim.Bounds.{Bounds, nvidia_mem_floor_mib}

-- The minimum admissible number of memory slices for the bandwidth `bw`.
unfoldable pub min_slices : NvidiaBoard → ℤ → ℤ
min_slices board bw =
    div64 (sub64 (add64 (mul64 bw board.memory_slices) board.memory_bandwidth_gbs) (pos 1))
      board.memory_bandwidth_gbs

-- The midpoint between k - 1 and k slices of board memory.
unfoldable pub slice_midpoint : NvidiaBoard → ℤ → ℤ
slice_midpoint board k =
    div64 (mul64 (sub64 (mul64 (pos 2) k) (pos 1)) board.memory_mib)
      (mul64 (pos 2) board.memory_slices)

-- The two last steps of `migThresholdMiB`: the larger of floor and midpoint, within the board.
unfoldable pub within_board : NvidiaBoard → ℤ → Option ℤ
within_board board thr = if ltb64 board.memory_mib thr then none else some thr

unfoldable pub raise_threshold : NvidiaBoard → ℤ → ℤ → ℤ
raise_threshold board k thr =
    if leb64 (pos 1) k
    then (let mid = slice_midpoint board k in if ltb64 thr mid then mid else thr)
    else thr

-- `migThresholdMiB`; `none` is ok=false.
unfoldable pub mig_threshold_mib : NvidiaBoard → Bounds → Option ℤ
mig_threshold_mib board b =
    if leb64 board.memory_slices (pos 0) || leb64 board.memory_bandwidth_gbs (pos 0)
    then none
    else (let mem_floor = nvidia_mem_floor_mib b in
        let bw = of_u64 b.min_bandwidth_gbs in
        if ltb64 (pos 0) bw
        then (let k = min_slices board bw in
            if ltb64 board.memory_slices k
            then none
            else within_board board (raise_threshold board k mem_floor))
        else within_board board mem_floor)

-- `migMinSMs`; `none` is ok=false.
unfoldable pub mig_min_sms : NvidiaBoard → ℤ → Option ℤ
mig_min_sms board min_compute_tflops =
    if leb64 min_compute_tflops (pos 0)
    then some (pos 0)
    else if leb64 board.compute_tflops (pos 0) || leb64 board.sm_count (pos 0)
    then none
    else (let min_sms =
          div64
            (sub64 (add64 (mul64 min_compute_tflops board.sm_count) board.compute_tflops) (pos 1))
            board.compute_tflops in
        if ltb64 board.sm_count min_sms then none else some min_sms)

unfoldable pub gpu_admits : NvidiaBoard → Bounds → ℤ → Bool
gpu_admits board b min_compute_tflops =
    if ltb64 board.memory_bandwidth_gbs (of_u64 b.min_bandwidth_gbs)
    then false
    else if ltb64 board.memory_mib (nvidia_mem_floor_mib b)
    then false
    else if ltb64 (pos 0) min_compute_tflops && ltb64 board.compute_tflops min_compute_tflops
    then false
    else true
