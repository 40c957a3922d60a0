-- ===== src/ModelClaim/Thresholds/Nat.antt =====
-- The arithmetic of nvidia.go over ℕ, where nothing overflows: ceilings and midpoints.
use llmfit_dra.Prelude.{ℕ, ◌+◌, ◌-◌, ◌*◌, ◌/◌, ◌≤◌, ◌<◌, ◌≡◌, ◌↔◌, arith}
use native.Mathlib.Decide.{dec_le}
use native.Mathlib.Nat.{mul-le-mul_right, div-lt_iff_lt-mul, div-le_of_le-mul}

-- ceil(x / y)
abbrev pub ceil_div : ℕ → ℕ → ℕ
ceil_div x y = (x + y - 1) / y

-- `ceil_div x y` is the least `j` with `x ≤ j * y`.
pub ceil_div-le_iff : (x y j : ℕ) → 0 < y → (ceil_div x y ≤ j) ↔ (x ≤ j * y)
ceil_div-le_iff x y j h = (λ p. grind arith, λ p. grind arith)

-- The midpoint between k - 1 and k of `s` slices of `m`.
abbrev pub midpoint : ℕ → ℕ → ℕ → ℕ
midpoint k s m = (2 * k - 1) * m / (2 * s)

-- A number that reaches the midpoint lies less than one above half of 2 k - 1 shares.
midpoint_lt :
    (k s m published : ℕ)
    → 0 < s
    → midpoint k s m ≤ published
    → (2 * k - 1) * m < (published + 1) * (2 * s)
midpoint_lt k s m published hs reached =
    (div-lt_iff_lt-mul {k = 2 * s} (omega arith)).0 (omega arith)

-- A partition that holds at most `j` slices' share of memory and reaches the midpoint below `k`
-- slices has at least `k` slices, on a board with 2 MiB or more for each slice.
pub midpoint_sound :
    (k j s m published : ℕ)
    → 0 < s
    → 2 * s ≤ m
    → published * s ≤ j * m
    → midpoint k s m ≤ published
    → k ≤ j
midpoint_sound k j s m published hs hm share reached = elim (dec_le k j) [
  | yes p ↦ p
  | no p ↦
      let i = k - 1 in
      let e : 2 * k - 1 ≡ 2 * i + 1 = omega arith in
      let lt : (2 * i + 1) * m < (published + 1) * (2 * s) =
        rw e at (midpoint_lt k s m published hs reached) in
      let le : j * m ≤ i * m = mul-le-mul_right m (omega arith) in absurd (omega arith)
]

-- A partition of `j` or more slices whose memory is at least the midpoint below its own size
-- reaches the midpoint below `k ≤ j` slices.
pub midpoint_complete :
    (k j s m published : ℕ)
    → k ≤ j
    → (2 * j - 1) * m ≤ published * (2 * s)
    → midpoint k s m ≤ published
midpoint_complete k j s m published h room =
    let le : (2 * k - 1) * m ≤ (2 * j - 1) * m = mul-le-mul_right m (omega arith) in
    div-le_of_le-mul (2 * s) (omega arith)
