-- ===== src/ModelClaim/Thresholds/Machine.antt =====
-- migThresholdMiB of nvidia.go on boards and bounds whose products stay below 2^63.
use llmfit_dra.Prelude.{
  ℕ, ◌+◌, ◌-◌, ◌*◌, ◌^◌, ◌≤◌, ◌<◌, ◌≡◌, Option, none, some, arith, ltb, if◌then◌else◌, String,
}
use llmfit_dra.Prelude.Int64.{ℤ, pos, of_u64-pos, add64-pos, sub64-pos, mul64-pos, div64-pos}
use native.Mathlib.Decide.{dec_le}
use native.Mathlib.Nat.{mul-le-mul_right}
use llmfit_dra.Index.{NvidiaBoard}
use llmfit_dra.ModelClaim.Bounds.{Bounds, nvidia_mem_floor_mib}
use llmfit_dra.ModelClaim.Thresholds.{
  min_slices, slice_midpoint, within_board, raise_threshold, mig_threshold_mib,
}
use llmfit_dra.ModelClaim.Thresholds.Nat.{ceil_div, ceil_div-le_iff, midpoint}

-- A board's numbers, none of them negative.
pub record Spec : Type 0 where
  pub name : String
  pub mem : ℕ
  pub bandwidth : ℕ
  pub tflops : ℕ
  pub sms : ℕ
  pub slices : ℕ

abbrev pub board_of : Spec → NvidiaBoard
board_of p = record {
  product_name = p.name;
  memory_mib = pos p.mem;
  memory_bandwidth_gbs = pos p.bandwidth;
  compute_tflops = pos p.tflops;
  sm_count = pos p.sms;
  memory_slices = pos p.slices;
}

-- No product that `migThresholdMiB` forms leaves the int64 range.
pub record IsInRange (p : Spec) (b : Bounds) : Type 0 where
  pub floor_fits : b.memory_gi * 1024 < 2 ^ 63
  pub gi_fits : b.memory_gi < 2 ^ 63
  pub want_fits : b.min_bandwidth_gbs < 2 ^ 63
  pub ceiling_fits : b.min_bandwidth_gbs * p.slices + p.bandwidth < 2 ^ 63
  pub midpoint_fits : 2 * p.slices * p.mem < 2 ^ 63
  pub slices_fit : 2 * p.slices < 2 ^ 63

-- The larger of floor and midpoint, within the board.
abbrev pub threshold_of : Spec → ℕ → ℕ → Option ℤ
threshold_of p floor mid =
    let thr = if ltb floor mid then mid else floor in if ltb p.mem thr then none else some (pos thr)

module _ {p : Spec} {b : Bounds} (r : IsInRange p b) where
  pub floor_lem : nvidia_mem_floor_mib b ≡ pos (b.memory_gi * 1024)
  unfolding nvidia_mem_floor_mib
  floor_lem = rw (of_u64-pos b.memory_gi r.gi_fits) (mul64-pos b.memory_gi 1024 r.floor_fits)

  min_slices_lem :
      0 < p.bandwidth
      → min_slices (board_of p) (pos b.min_bandwidth_gbs)
        ≡ pos (ceil_div (b.min_bandwidth_gbs * p.slices) p.bandwidth)
  unfolding min_slices
  min_slices_lem h =
      let product = b.min_bandwidth_gbs * p.slices in
      let fits : product + p.bandwidth < 2 ^ 63 = r.ceiling_fits in
      rw (
        mul64-pos b.min_bandwidth_gbs p.slices (omega arith),
        add64-pos product p.bandwidth (omega arith),
        sub64-pos (product + p.bandwidth) 1 (omega arith) (omega arith),
        div64-pos (product + p.bandwidth - 1) p.bandwidth h (omega arith),
      )

  midpoint_lem :
      (k : ℕ)
      → 1 ≤ k
      → k ≤ p.slices
      → slice_midpoint (board_of p) (pos k) ≡ pos (midpoint k p.slices p.mem)
  unfolding slice_midpoint
  midpoint_lem k h le =
      let fits : (2 * k - 1) * p.mem ≤ 2 * p.slices * p.mem =
        mul-le-mul_right p.mem (omega arith) in
      let whole : 2 * p.slices * p.mem < 2 ^ 63 = r.midpoint_fits in
      let bound : 2 * p.slices < 2 ^ 63 = r.slices_fit in
      rw (
        mul64-pos 2 k (omega arith),
        sub64-pos (2 * k) 1 (omega arith) (omega arith),
        mul64-pos (2 * k - 1) p.mem (omega arith),
        mul64-pos 2 p.slices (omega arith),
        div64-pos ((2 * k - 1) * p.mem) (2 * p.slices) (omega arith) (omega arith),
      )

  -- The least slice count that carries the wanted bandwidth.
  abbrev pub least_slices : ℕ
  least_slices = ceil_div (b.min_bandwidth_gbs * p.slices) p.bandwidth

  least_slices-pos : 0 < p.slices → 0 < p.bandwidth → 0 < b.min_bandwidth_gbs → 1 ≤ least_slices
  least_slices-pos hs hb hw = elim (dec_le 1 least_slices) [
    | yes p ↦ p
    | no q ↦ absurd (less (omega arith))
  ]
    where
      open p use {slices, bandwidth}

      none_left : ¬ (b.min_bandwidth_gbs * slices ≤ 0 * bandwidth)
      none_left h = absurd (grind arith)

      less : ¬ (least_slices ≤ 0)
      less h = none_left ((ceil_div-le_iff (b.min_bandwidth_gbs * slices) bandwidth 0 hb).0 h)

  raise_threshold_lem :
      (k : ℕ)
      → 1 ≤ k
      → k ≤ p.slices
      → within_board (board_of p) (raise_threshold (board_of p) (pos k) (pos (b.memory_gi * 1024)))
        ≡ threshold_of p (b.memory_gi * 1024) (midpoint k p.slices p.mem)
  unfolding raise_threshold within_board
  raise_threshold_lem k h le = rw (midpoint_lem k h le) (ground arith)

  -- `migThresholdMiB` with a bandwidth floor, over ℕ.
  pub mig_threshold_mib-eq :
      0 < p.slices
      → 0 < p.bandwidth
      → 0 < b.min_bandwidth_gbs
      → mig_threshold_mib (board_of p) b ≡ (
          if ltb p.slices least_slices
          then none
          else threshold_of p (b.memory_gi * 1024) (midpoint least_slices p.slices p.mem))
  unfolding mig_threshold_mib
  mig_threshold_mib-eq hs hb hw =
      rw (of_u64-pos b.min_bandwidth_gbs r.want_fits, floor_lem, min_slices_lem hb)
        (ground (arith, raise_threshold_lem least_slices (least_slices-pos hs hb hw)))
