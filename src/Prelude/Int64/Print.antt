-- ===== src/Prelude/Int64/Print.antt =====
-- The decimal text of an int64 tells the number.
use Prim.Native.Nat.{ℕ, suc}
use Prim.Native.String.{String, ◌++◌}
use mathlib.Core.Path.{◌≡◌, refl, sym, ap, ◌∙◌, subst}
use mathlib.Core.List.{[], ◌∷◌}
use native.Mathlib.Omega.{arith}
use text.Mathlib.TextLemmas.{append_assoc, append_cancel_left, cons-append}
use llmfit_dra.Prelude.Text.{codes, span_digits, digits_value, decimal}
use llmfit_dra.Prelude.Text.Decimal.{
  Headless, span_digits-decimal, decimal-value, cons-Headless, decimal-append_injective,
}
use llmfit_dra.Prelude.Int64.{ℤ, pos, negsuc, decimal64}

decimal_zero : codes (decimal 0) ≡ 48 ∷ []
unfolding codes decimal
decimal_zero = refl

no_digits : digits_value 0 [] ≡ 0
unfolding digits_value
no_digits = refl

decimal-codes-ne-nil : (n : ℕ) → ¬ (codes (decimal n) ≡ [])
decimal-codes-ne-nil n e =
    let is_zero : n ≡ 0 = sym (decimal-value n) ∙ ap (digits_value 0) e ∙ no_digits in
    let empty : codes (decimal 0) ≡ [] = subst (λ k. codes (decimal k) ≡ []) is_zero e in
    ground (arith, decimal_zero, empty)

-- A number's text is not that of a negative one.
decimal-ne-minus : (n : ℕ) (s t : String) → Headless s → ¬ (decimal n ++ s ≡ "-" ++ t)
decimal-ne-minus n s t h e =
    let minus : Headless ("-" ++ t) =
      subst Headless (sym (cons-append "-" "" t)) (cons-Headless "-" ("" ++ t) refl) in
    decimal-codes-ne-nil n
      (ap (λ p. p.0) (sym (span_digits-decimal n s h) ∙ ap span_digits e ∙ minus))

pos_text : (n : ℕ) (s : String) → decimal64 (pos n) ++ s ≡ decimal n ++ s
unfolding decimal64
pos_text n s = refl

minus_text : (n : ℕ) (s : String) → decimal64 (negsuc n) ++ s ≡ "-" ++ (decimal (suc n) ++ s)
unfolding decimal64
minus_text n s = append_assoc "-" (decimal (suc n)) s

-- Two numbers that are printed alike before texts without a leading digit are equal, and so are the
-- texts.
pub decimal64-append_injective :
    (a b : ℤ) (s t : String)
    → Headless s
    → Headless t
    → decimal64 a ++ s ≡ decimal64 b ++ t
    → (a ≡ b) × (s ≡ t)
decimal64-append_injective (pos n) (pos m) s t hs ht e =
    let same = decimal-append_injective n m s t hs ht (sym (pos_text n s) ∙ e ∙ pos_text m t) in
    (ap pos same.0, same.1)
decimal64-append_injective (pos n) (negsuc m) s t hs ht e =
    absurd (decimal-ne-minus n s _ hs (sym (pos_text n s) ∙ e ∙ minus_text m t))
decimal64-append_injective (negsuc n) (pos m) s t hs ht e =
    absurd (decimal-ne-minus m t _ ht (sym (pos_text m t) ∙ sym e ∙ minus_text n s))
decimal64-append_injective (negsuc n) (negsuc m) s t hs ht e =
    let same : (suc n ≡ suc m) × (s ≡ t) =
      decimal-append_injective (suc n) (suc m) s t hs ht
        (append_cancel_left "-" _ _ (sym (minus_text n s) ∙ e ∙ minus_text m t)) in
    (ground (arith, same.0), same.1)
