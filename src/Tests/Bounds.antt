-- ===== src/Tests/Bounds.antt =====
-- The thresholds of an A100 with 80 GB, and the parts of a whole board.
use llmfit_dra.Prelude.{ℕ, ◌*◌, ◌≤◌, ◌≡◌, refl, some, none, arith}
use llmfit_dra.Prelude.Int64.{pos, of_u64, add64, sub64, mul64, div64}
use llmfit_dra.ModelClaim.Bounds.{nvidia_mem_floor_mib}
use llmfit_dra.ModelClaim.Thresholds.{
  mig_threshold_mib, mig_min_sms, min_slices, slice_midpoint, within_board, raise_threshold,
}
use llmfit_dra.ModelClaim.Thresholds.Machine.{board_of, IsInRange}
use llmfit_dra.ModelClaim.Thresholds.Mig.{IsMig, mig_threshold_sound, mig_threshold_complete}
use llmfit_dra.Tests.Fixtures.{a100, bounds_of}

a100-IsMig : IsMig a100
a100-IsMig = record { has_slices = omega arith; has_bandwidth = omega arith; roomy = omega arith }

in_range : IsInRange a100 (bounds_of 8 600)
in_range = record {
  floor_fits = omega arith;
  gi_fits = omega arith;
  want_fits = omega arith;
  ceiling_fits = omega arith;
  midpoint_fits = omega arith;
  slices_fit = omega arith;
}

-- Floors that the board does not reach.
out_of_reach : IsInRange a100 (bounds_of 8 3000)
out_of_reach = record {
  floor_fits = omega arith;
  gi_fits = omega arith;
  want_fits = omega arith;
  ceiling_fits = omega arith;
  midpoint_fits = omega arith;
  slices_fit = omega arith;
}

threshold_600 : mig_threshold_mib (board_of a100) (bounds_of 8 600) ≡ some (pos 25600)
unfolding mig_threshold_mib nvidia_mem_floor_mib min_slices slice_midpoint within_board
    raise_threshold of_u64 add64 sub64 mul64 div64
threshold_600 = refl

threshold_3000 : mig_threshold_mib (board_of a100) (bounds_of 8 3000) ≡ none
unfolding mig_threshold_mib nvidia_mem_floor_mib min_slices slice_midpoint within_board
    raise_threshold of_u64 add64 sub64 mul64 div64
threshold_3000 = refl

sms_100 : mig_min_sms (board_of a100) (pos 100) ≡ some (pos 35)
unfolding mig_min_sms add64 sub64 mul64 div64
sms_100 = refl

-- A 3g.40gb partition: 40192 MiB on four of the eight memory slices.
mig_threshold_sound_example :
    (bounds_of 8 600).memory_gi * 1024 ≤ 40192 × (600 * a100.slices ≤ 4 * a100.bandwidth)
mig_threshold_sound_example =
    mig_threshold_sound a100 (bounds_of 8 600) in_range a100-IsMig 25600 40192 4 (omega arith)
      threshold_600 (omega arith) (omega arith)

mig_threshold_complete_example :
    (t : ℕ) × (mig_threshold_mib (board_of a100) (bounds_of 8 600) ≡ some (pos t)) × (t ≤ 40192)
mig_threshold_complete_example =
    mig_threshold_complete a100 (bounds_of 8 600) in_range a100-IsMig 40192 4 (omega arith)
      (omega arith) (omega arith) (omega arith) (omega arith) (omega arith)
