-- ===== src/Prelude/Int64.antt =====
-- Go's `int64`: an integer with the wrap-around of two's complement written out.
pub mod Print
use Prim.Native.Nat.{ℕ, suc, ◌+◌, ◌-◌, ◌*◌, ◌/◌, ◌%◌, ◌^◌, ◌≤◌, ◌<◌}
use Prim.Native.String.{String, ◌++◌}
use mathlib.Core.Path.{◌≡◌, refl}
use mathlib.Core.Bool.{Bool}
use native.Mathlib.Omega.{arith}
use llmfit_dra.Prelude.Tests.{ltb, leb, eqb, if◌then◌else◌}
use llmfit_dra.Prelude.Text.{decimal}

-- `negsuc n` is -(n + 1).
pub data ℤ : Type 0 where
  pos : ℕ → ℤ
  negsuc : ℕ → ℤ

abbrev pub pos_part : ℤ → ℕ
pos_part (pos n) = n
pos_part (negsuc n) = 0

abbrev pub neg_part : ℤ → ℕ
neg_part (pos n) = 0
neg_part (negsuc n) = suc n

abbrev pub sub_ℕ : ℕ → ℕ → ℤ
sub_ℕ a b = if leb b a then pos (a - b) else negsuc (b - a - 1)

-- The residue modulo 2^64, and the int64 with that residue.
residue : ℤ → ℕ
residue (pos n) = n % 2 ^ 64
residue (negsuc n) = 2 ^ 64 - 1 - n % 2 ^ 64

of_residue : ℕ → ℤ
of_residue m = if ltb m (2 ^ 63) then pos m else negsuc (2 ^ 64 - 1 - m)

unfoldable pub wrap : ℤ → ℤ
unfolding residue of_residue
wrap z = of_residue (residue z)

-- `int64(x)` of a uint64.
unfoldable pub of_u64 : ℕ → ℤ
unfolding wrap
of_u64 n = wrap (pos n)

unfoldable pub add64 : ℤ → ℤ → ℤ
unfolding wrap
add64 a b = wrap (sub_ℕ (pos_part a + pos_part b) (neg_part a + neg_part b))

unfoldable pub sub64 : ℤ → ℤ → ℤ
unfolding wrap
sub64 a b = wrap (sub_ℕ (pos_part a + neg_part b) (neg_part a + pos_part b))

unfoldable pub mul64 : ℤ → ℤ → ℤ
unfolding wrap
mul64 a b = wrap (
    sub_ℕ (pos_part a * pos_part b + neg_part a * neg_part b)
      (pos_part a * neg_part b + neg_part a * pos_part b))

-- Division truncates towards zero. Division by zero panics in Go: every call in the program has a
-- divisor that is a positive literal or that its own guard found positive.
unfoldable pub div64 : ℤ → ℤ → ℤ
unfolding wrap
div64 (pos a) b = wrap (sub_ℕ (a / pos_part b) (a / neg_part b))
div64 (negsuc a) b = wrap (sub_ℕ (suc a / neg_part b) (suc a / pos_part b))

abbrev pub ltb64 : ℤ → ℤ → Bool
ltb64 a b = ltb (pos_part a + neg_part b) (pos_part b + neg_part a)

abbrev pub leb64 : ℤ → ℤ → Bool
leb64 a b = leb (pos_part a + neg_part b) (pos_part b + neg_part a)

abbrev pub eqb64 : ℤ → ℤ → Bool
eqb64 a b = eqb (pos_part a + neg_part b) (pos_part b + neg_part a)

-- `%d` of an int64.
unfoldable pub decimal64 : ℤ → String
unfolding decimal
decimal64 (pos n) = decimal n
decimal64 (negsuc n) = "-" ++ decimal (suc n)

-- Where no operation leaves the range, the operations are those of ℕ.
pub wrap-pos : (n : ℕ) → n < 2 ^ 63 → wrap (pos n) ≡ pos n
unfolding wrap
wrap-pos n h = ground arith

pub of_u64-pos : (n : ℕ) → n < 2 ^ 63 → of_u64 n ≡ pos n
unfolding of_u64
of_u64-pos n h = ground arith

pub add64-pos : (a b : ℕ) → a + b < 2 ^ 63 → add64 (pos a) (pos b) ≡ pos (a + b)
unfolding add64
add64-pos a b h = ground arith

pub sub64-pos : (a b : ℕ) → b ≤ a → a < 2 ^ 63 → sub64 (pos a) (pos b) ≡ pos (a - b)
unfolding sub64
sub64-pos a b h k = ground arith

pub mul64-pos : (a b : ℕ) → a * b < 2 ^ 63 → mul64 (pos a) (pos b) ≡ pos (a * b)
unfolding mul64
mul64-pos a b h = ground arith

pub div64-pos : (a b : ℕ) → 0 < b → a < 2 ^ 63 → div64 (pos a) (pos b) ≡ pos (a / b)
unfolding div64
div64-pos a b h k = ground arith

wraps_low : mul64 (pos (2 ^ 33)) (pos (2 ^ 30)) ≡ negsuc (2 ^ 63 - 1)
unfolding mul64
wraps_low = refl

truncates : div64 (negsuc 6) (pos 2) ≡ negsuc 2
unfolding div64
truncates = refl
