-- ===== src/ModelClaim/Thresholds/Compute.antt =====
-- The compute floor of nvidia.go on MIG partitions, and the admission of a whole board.
use native.Mathlib.Nat.{mul_comm, mul-le-mul_right, le_of_mul-le-mul_right}
use llmfit_dra.Prelude.{
  subst, ℕ, ◌+◌, ◌-◌, ◌*◌, ◌^◌, ◌≤◌, ◌<◌, ◌≡◌, ◌↔◌, none, some, arith, true, ltb, if◌then◌else◌,
}
use llmfit_dra.Prelude.Int64.{
  pos, add64, sub64, mul64, div64, add64-pos, sub64-pos, mul64-pos, div64-pos, of_u64-pos,
}
use llmfit_dra.ModelClaim.Bounds.{Bounds}
use llmfit_dra.ModelClaim.Thresholds.{mig_min_sms, gpu_admits}
use llmfit_dra.ModelClaim.Thresholds.Nat.{ceil_div, ceil_div-le_iff}
use llmfit_dra.ModelClaim.Thresholds.Machine.{Spec, board_of, IsInRange, floor_lem}

module _ (p : Spec) (floor : ℕ) (fits : floor * p.sms + p.tflops < 2 ^ 63) where
  ceiling_lem :
      0 < floor
      → 0 < p.tflops
      → 0 < p.sms
      → div64 (sub64 (add64 (mul64 (pos floor) (pos p.sms)) (pos p.tflops)) (pos 1)) (pos p.tflops)
        ≡ pos (ceil_div (floor * p.sms) p.tflops)
  ceiling_lem hf ht hs =
      let product = floor * p.sms in
      rw (
        mul64-pos floor p.sms (omega arith),
        add64-pos product p.tflops fits,
        sub64-pos (product + p.tflops) 1 (omega arith) (omega arith),
        div64-pos (product + p.tflops - 1) p.tflops ht (omega arith),
      )

  -- Below the floors of the table the threshold is the ceiling, and no more than the board has.
  mig_min_sms-eq :
      0 < floor
      → 0 < p.tflops
      → 0 < p.sms
      → mig_min_sms (board_of p) (pos floor)
        ≡ (let k = ceil_div (floor * p.sms) p.tflops in if ltb p.sms k then none else some (pos k))
  unfolding mig_min_sms
  mig_min_sms-eq hf ht hs = ground (arith, ceiling_lem hf ht hs)

  -- On a board with compute data, within the int64 range: an opt-in compute floor becomes the exact
  -- threshold: a partition with `n` multiprocessors reaches it exactly when its share of the
  -- board's compute reaches the floor.
  pub mig_min_sms_exact :
      {t : ℕ} (n : ℕ)
      → 0 < floor
      → 0 < p.tflops
      → 0 < p.sms
      → mig_min_sms (board_of p) (pos floor) ≡ some (pos t)
      → (t ≤ n) ↔ (floor * p.sms ≤ n * p.tflops)
  mig_min_sms_exact {t} n hf ht hs found =
      let e : t ≡ ceil_div (floor * p.sms) p.tflops = ground (arith, mig_min_sms-eq hf ht hs) in
      rw e (ceil_div-le_iff (floor * p.sms) p.tflops n ht)

  -- Within the int64 range a board with compute data is excluded exactly when its whole compute is
  -- below the floor.
  pub mig_min_sms-none :
      0 < floor
      → 0 < p.tflops
      → 0 < p.sms
      → (mig_min_sms (board_of p) (pos floor) ≡ none) ↔ (p.tflops < floor)
  mig_min_sms-none hf ht hs =
      let k = ceil_div (floor * p.sms) p.tflops in
      let iff = ceil_div-le_iff (floor * p.sms) p.tflops p.sms ht in
      let to : k ≤ p.sms → floor ≤ p.tflops = λ h.
        le_of_mul-le-mul_right {k = p.sms}
          (subst (λ x. floor * p.sms ≤ x) (mul_comm p.sms p.tflops) (iff.0 h)) hs in
      let from : floor ≤ p.tflops → k ≤ p.sms = λ h.
        iff.1
          (subst (λ x. floor * p.sms ≤ x) (mul_comm p.tflops p.sms) (mul-le-mul_right p.sms h)) in
      rw (mig_min_sms-eq hf ht hs) (ground (arith, to, from))

-- Within the int64 range a whole board is admitted exactly when it has the bandwidth, the memory
-- and, if a compute floor is set, the compute.
pub gpu_admits_iff :
    (p : Spec) (b : Bounds) (floor : ℕ)
    → IsInRange p b
    → (gpu_admits (board_of p) b (pos floor) ≡ true)
      ↔ ((b.min_bandwidth_gbs ≤ p.bandwidth) × (b.memory_gi * 1024 ≤ p.mem) × (floor ≤ p.tflops))
unfolding gpu_admits
gpu_admits_iff p b floor r =
    rw (of_u64-pos b.min_bandwidth_gbs r.want_fits, floor_lem r) (ground arith)
