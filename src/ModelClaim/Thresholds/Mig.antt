-- ===== src/ModelClaim/Thresholds/Mig.antt =====
-- migThresholdMiB of nvidia.go and the floors that it stands for, on MIG partitions.
use native.Mathlib.Nat.{mul-le-mul_right}
use llmfit_dra.Prelude.{if◌then◌else◌, ℕ, ◌-◌, ◌*◌, ◌≤◌, ◌<◌, ◌≡◌, none, some, arith, ltb}
use llmfit_dra.Prelude.Int64.{pos}
use llmfit_dra.ModelClaim.Bounds.{Bounds}
use llmfit_dra.ModelClaim.Thresholds.{mig_threshold_mib}
use llmfit_dra.ModelClaim.Thresholds.Nat.{
  ceil_div, ceil_div-le_iff, midpoint, midpoint_sound, midpoint_complete,
}
use llmfit_dra.ModelClaim.Thresholds.Machine.{Spec, board_of, IsInRange, mig_threshold_mib-eq}

-- The hypotheses under which the MIG model speaks: a MIG board with 2 MiB or more for each slice.
pub record IsMig (p : Spec) : Type 0 where
  pub has_slices : 0 < p.slices
  pub has_bandwidth : 0 < p.bandwidth
  pub roomy : 2 * p.slices ≤ p.mem

module _ (p : Spec) (b : Bounds) (r : IsInRange p b) (mig : IsMig p) where
  -- On a MIG board in range, with a bandwidth floor: a partition whose memory is at most the share of
  -- `j` slices, and which reaches the threshold, has the memory floor, and `j` slices of derived
  -- bandwidth reach the bandwidth floor.
  pub mig_threshold_sound :
      (t published j : ℕ)
      → 0 < b.min_bandwidth_gbs
      → mig_threshold_mib (board_of p) b ≡ some (pos t)
      → published * p.slices ≤ j * p.mem
      → t ≤ published
      → (b.memory_gi * 1024 ≤ published) × (b.min_bandwidth_gbs * p.slices ≤ j * p.bandwidth)
  mig_threshold_sound t published j hw found share reached =
      let e = mig_threshold_mib-eq r mig.has_slices mig.has_bandwidth hw in
      let k = ceil_div (b.min_bandwidth_gbs * p.slices) p.bandwidth in
      let carries =
        ceil_div-le_iff (b.min_bandwidth_gbs * p.slices) p.bandwidth j mig.has_bandwidth in
      let sound = midpoint_sound k j p.slices p.mem published mig.has_slices mig.roomy share in
      (ground (arith, e), carries.0 (sound (ground (arith, e))))

  -- On a MIG board in range, with a bandwidth floor: a partition of `j` slices that reach the
  -- bandwidth floor, with the memory floor and with more memory than the midpoint below its own
  -- size, is admitted: there is a threshold and it is reached.
  pub mig_threshold_complete :
      (published j : ℕ)
      → 0 < b.min_bandwidth_gbs
      → j ≤ p.slices
      → b.min_bandwidth_gbs * p.slices ≤ j * p.bandwidth
      → (2 * j - 1) * p.mem ≤ published * (2 * p.slices)
      → b.memory_gi * 1024 ≤ published
      → published ≤ p.mem
      → (t : ℕ) × (mig_threshold_mib (board_of p) b ≡ some (pos t)) × (t ≤ published)
  mig_threshold_complete published j hw small enough room floor within =
      let e = mig_threshold_mib-eq r mig.has_slices mig.has_bandwidth hw in
      let k = ceil_div (b.min_bandwidth_gbs * p.slices) p.bandwidth in
      let k_le : k ≤ j =
        (ceil_div-le_iff (b.min_bandwidth_gbs * p.slices) p.bandwidth j mig.has_bandwidth).1
          enough in
      let mid = midpoint k p.slices p.mem in
      let mid_le : mid ≤ published = midpoint_complete k j p.slices p.mem published k_le room in
      let floor_gi = b.memory_gi * 1024 in
      ((if ltb floor_gi mid then mid else floor_gi), ground (arith, e), ground arith)

  -- On a MIG board in range, with a bandwidth floor: without a threshold the floors are beyond the
  -- board: its memory is below the memory floor, or no number of its slices carries the bandwidth
  -- floor.
  pub mig_threshold_none :
      (j : ℕ)
      → 0 < b.min_bandwidth_gbs
      → mig_threshold_mib (board_of p) b ≡ none
      → j ≤ p.slices
      → b.memory_gi * 1024 ≤ p.mem
      → ¬ (b.min_bandwidth_gbs * p.slices ≤ j * p.bandwidth)
  mig_threshold_none j hw nothing small floor enough =
      let share : (2 * j - 1) * p.mem ≤ 2 * p.slices * p.mem =
        mul-le-mul_right p.mem (omega arith) in
      let found =
        mig_threshold_complete p.mem j hw small enough (omega arith) floor (omega arith) in
      ground (arith, found.1)
