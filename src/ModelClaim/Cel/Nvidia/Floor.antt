-- ===== src/ModelClaim/Cel/Nvidia/Floor.antt =====
-- The memory thresholds of a claim in MiB, and comparing a device's memory with them.
use llmfit_dra.Prelude.{ℕ, suc, ◌*◌, ◌^◌, ◌≤◌, ◌<◌, ◌≡◌, Option, none, some, true, false, arith}
use llmfit_dra.Prelude.Int64.{
  ℤ, pos, negsuc, pos_part, neg_part, mul64, div64, leb64, ltb64, of_u64, of_u64-pos, mul64-pos,
  div64-pos,
}
use llmfit_dra.Index.{NvidiaBoard}
use llmfit_dra.ModelClaim.Bounds.{Bounds, nvidia_mem_floor_mib}
use llmfit_dra.ModelClaim.Thresholds.{mig_threshold_mib, raise_threshold, within_board, min_slices}
use llmfit_dra.ModelClaim.Cel.{scale}

-- The floor of the resolver in MiB, positive and in range.
pub record HasFloor (b : Bounds) : Type 0 where
  pub some_memory : 0 < b.memory_gi
  pub floor_fits : b.memory_gi * 1024 < 2 ^ 63

pub floor_lem : (b : Bounds) → HasFloor b → nvidia_mem_floor_mib b ≡ pos (b.memory_gi * 1024)
unfolding nvidia_mem_floor_mib
floor_lem b h = rw (of_u64-pos b.memory_gi (omega arith)) (mul64-pos b.memory_gi 1024 h.floor_fits)

abbrev pub Positive : ℤ → Type 0
Positive z = ltb64 (pos 0) z ≡ true

raise-Positive :
    (board : NvidiaBoard) (k thr : ℤ) → Positive thr → Positive (raise_threshold board k thr)
unfolding raise_threshold
raise-Positive board k thr h = ground arith

pub mig_threshold-Positive :
    (board : NvidiaBoard) (b : Bounds) (thr : ℤ)
    → HasFloor b
    → mig_threshold_mib board b ≡ some thr
    → Positive thr
unfolding mig_threshold_mib within_board
mig_threshold-Positive board b thr h e = ground (
  arith,
  floor_lem b h,
  raise-Positive board (min_slices board (of_u64 b.min_bandwidth_gbs)) (nvidia_mem_floor_mib b),
)

-- A value of a capacity as the API gives it, an int64.
abbrev pub InInt64 : Option ℤ → Type 0
InInt64 none = Unit
InInt64 (some v) = (pos_part v < 2 ^ 63) × (neg_part v ≤ 2 ^ 63)

-- Comparing with a positive number of MiB before and after the division.
mib_compare-pos :
    (n v : ℕ)
    → v < 2 ^ 63
    → leb64 (pos (n * 2 ^ 20)) (pos v) ≡ leb64 (pos n) (div64 (pos v) (pos (2 ^ 20)))
mib_compare-pos n v h = rw (div64-pos v (2 ^ 20) (omega arith) h) (ground arith)

mib_compare-neg :
    (n v : ℕ) → 0 < n → suc v ≤ 2 ^ 63 → leb64 (pos n) (div64 (negsuc v) (pos (2 ^ 20))) ≡ false
unfolding div64
mib_compare-neg n v p h = ground arith

pub mib_compare :
    (z v : ℤ)
    → Positive z
    → InInt64 (some v)
    → leb64 (scale (2 ^ 20) z) v ≡ leb64 z (div64 v (mul64 (pos 1024) (pos 1024)))
unfolding mul64
mib_compare (pos n) (pos v) p h = mib_compare-pos n v h.0
mib_compare (pos n) (negsuc v) p h = rw (mib_compare-neg n v (ground arith) h.1) (ground arith)
mib_compare (negsuc n) v p h = absurd (ground arith)

pub floor-Positive : (b : Bounds) → HasFloor b → Positive (nvidia_mem_floor_mib b)
floor-Positive b h = rw (floor_lem b h) (ground (arith, h.some_memory))
