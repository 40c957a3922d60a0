-- ===== src/Prelude/Text/Decimal.antt =====
-- Reading back the decimal numbers that the program prints.
use Prim.Native.Char.{Char, code}
use Prim.Native.String.{◌++◌}
use text.Mathlib.TextLemmas.{cons-append, nil-append}
use mathlib.Core.List
use mathlib.Core.Logic.{dite}
use mathlib.Core.WellFounded.{Acc}
use native.Mathlib.Decide.{dec_lt}
use Prim.Native.Nat.{ℕ, zero, suc, ◌+◌, ◌-◌, ◌*◌, ◌/◌, ◌%◌, ◌<◌}
use Prim.Native.String.{String}
use mathlib.Core.Path.{◌≡◌, refl, sym, ap, ◌∙◌, subst}
use mathlib.Core.Bool.{true, false, ◌&&◌}
use mathlib.Core.List.{List, [], ◌∷◌}
use native.Mathlib.Omega.{arith}
use llmfit_dra.Prelude.Lists.{all}
use llmfit_dra.Prelude.Text.{
  is_digit, span_digits, digits_value, codes, digit, decimal, decimal_digits, tenth-lt, acc_of_lt,
}

codes-append : (s t : String) → codes (s ++ t) ≡ List.◌++◌ (codes s) (codes t)
unfolding codes
codes-append String.[] t = ap codes (nil-append t)
codes-append (String.◌∷◌ c s) t = rw (cons-append c s t) (ap (λ l. code c ∷ l) (codes-append s t))

all-append :
    (xs ys : List ℕ) → all is_digit (List.◌++◌ xs ys) ≡ (all is_digit xs && all is_digit ys)
all-append [] ys = refl
all-append (x ∷ xs) ys = ground (arith, all-append xs ys)

digits_value-append :
    (n : ℕ) (xs : List ℕ) (d : ℕ)
    → digits_value n (List.◌++◌ xs (d ∷ [])) ≡ digits_value n xs * 10 + (d - 48)
unfolding digits_value
digits_value-append n [] d = refl
digits_value-append n (x ∷ xs) d = digits_value-append (n * 10 + (x - 48)) xs d

-- The text does not start with a digit.
abbrev pub Headless : String → Type 0
Headless s = span_digits s ≡ ([], s)

pub span_digits-append :
    (s rest : String)
    → all is_digit (codes s) ≡ true
    → Headless rest
    → span_digits (s ++ rest) ≡ (codes s, rest)
unfolding span_digits codes
span_digits-append String.[] rest h end = rw (nil-append rest) end
span_digits-append (String.◌∷◌ c s) rest h end =
    rw (cons-append c s rest) (ground (arith, span_digits-append s rest))

digit_lem : (d : ℕ) → d < 10 → codes (digit d) ≡ (d + 48) ∷ []
unfolding digit codes
digit_lem zero h = refl
digit_lem (suc zero) h = refl
digit_lem (suc (suc zero)) h = refl
digit_lem (suc (suc (suc zero))) h = refl
digit_lem (suc (suc (suc (suc zero)))) h = refl
digit_lem (suc (suc (suc (suc (suc zero))))) h = refl
digit_lem (suc (suc (suc (suc (suc (suc zero)))))) h = refl
digit_lem (suc (suc (suc (suc (suc (suc (suc zero))))))) h = refl
digit_lem (suc (suc (suc (suc (suc (suc (suc (suc zero)))))))) h = refl
digit_lem (suc (suc (suc (suc (suc (suc (suc (suc (suc zero))))))))) h = refl
digit_lem (suc (suc (suc (suc (suc (suc (suc (suc (suc (suc n)))))))))) h = absurd (omega arith)

-- What the digits of a number are.
abbrev Reads : ℕ → String → Type 0
Reads n s = (all is_digit (codes s) ≡ true) × (digits_value 0 (codes s) ≡ n)

digit-Reads : (d : ℕ) → d < 10 → Reads d (digit d)
unfolding digits_value
digit-Reads d h = rw (digit_lem d h) (ground arith, omega arith)

snoc-Reads :
    (n d : ℕ) (s t : String)
    → Reads n s
    → Reads d t
    → d < 10
    → codes t ≡ (d + 48) ∷ []
    → Reads (n * 10 + d) (s ++ t)
snoc-Reads n d s t rs rt h e =
    rw (codes-append s t, e)
      (
        rw (all-append (codes s) ((d + 48) ∷ [])) (ground arith),
        digits_value-append 0 (codes s) (d + 48) ∙ omega (arith, rs.1),
      )

decimal_digits-Reads : (n : ℕ) (w : Acc ◌<◌ n) → Reads n (decimal_digits n w)
unfolding decimal_digits
decimal_digits-Reads n (Acc.intro _ smaller) =
    elim (dec_lt n 10)
      as (λ c. Reads n (
        dite c (λ _. digit n)
          (λ h. decimal_digits (n / 10) (smaller (n / 10) (tenth-lt h)) ++ digit (n % 10)))) [
            | yes h ↦ digit-Reads n h
            | no h ↦
                subst
                  (λ k.
                    Reads k
                      (decimal_digits (n / 10) (smaller (n / 10) (tenth-lt h)) ++ digit (n % 10)))
                  (omega arith)
                  (snoc-Reads (n / 10) (n % 10) _ _
                    (decimal_digits-Reads (n / 10) (smaller (n / 10) (tenth-lt h)))
                    (digit-Reads (n % 10) (omega arith)) (omega arith)
                    (digit_lem (n % 10) (omega arith)))
          ]

pub decimal-Reads : (n : ℕ) → Reads n (decimal n)
unfolding decimal
decimal-Reads n = decimal_digits-Reads n (acc_of_lt (suc n) n (omega arith))

-- The digits of a number are found before a text that does not start with one.
pub span_digits-decimal :
    (n : ℕ) (rest : String)
    → Headless rest
    → span_digits (decimal n ++ rest) ≡ (codes (decimal n), rest)
span_digits-decimal n rest h = span_digits-append (decimal n) rest (decimal-Reads n).0 h

pub decimal-value : (n : ℕ) → digits_value 0 (codes (decimal n)) ≡ n
decimal-value n = (decimal-Reads n).1

-- A text that starts with another character is headless.
pub cons-Headless : (c : Char) (s : String) → is_digit (code c) ≡ false → Headless (String.◌∷◌ c s)
unfolding span_digits
cons-Headless c s h = ground arith

pub nil-Headless : Headless ""
unfolding span_digits
nil-Headless = refl

-- Two numbers that are printed alike before such texts are equal, and so are the texts.
pub decimal-append_injective :
    (n m : ℕ) (s t : String)
    → Headless s
    → Headless t
    → decimal n ++ s ≡ decimal m ++ t
    → (n ≡ m) × (s ≡ t)
decimal-append_injective n m s t hs ht e =
    let spans : (codes (decimal n), s) ≡ (codes (decimal m), t) =
      sym (span_digits-decimal n s hs) ∙ ap span_digits e ∙ span_digits-decimal m t ht in
    (
      sym (decimal-value n) ∙ ap (λ p. digits_value 0 p.0) spans ∙ decimal-value m,
      ap (λ p. p.1) spans,
    )
