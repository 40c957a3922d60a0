-- ===== src/Prelude/Text.antt =====
-- The text functions of Go's standard library that the program calls: `%d` and `FormatInt`,
-- `strings.Join`, `sort.Strings`, `strings.ToLower` and `strings.Contains`.
pub mod Decimal
use Prim.Native.Nat.{ℕ, zero, suc, ◌+◌, ◌-◌, ◌*◌, ◌/◌, ◌%◌, ◌<◌}
use Prim.Native.Char.{code}
use Prim.Native.String.{String, ◌++◌, compare}
use mathlib.Core.Path.{◌≡◌, refl}
use mathlib.Core.Bool.{Bool, true, false, ◌&&◌, ◌||◌}
use mathlib.Core.Option.{Option, none, some}
use mathlib.Core.List.{List, [], ◌∷◌}
use mathlib.Core.Logic.{dite}
use mathlib.Core.WellFounded.{Acc}
use native.Mathlib.Decide.{dec_lt}
use native.Mathlib.Omega.{arith}
use text.Mathlib.Text.{is_le}
use llmfit_dra.Prelude.Lists.{any}
use llmfit_dra.Prelude.Tests.{eqb, leb, if◌then◌else◌}

acc_of_lt : (bound n : ℕ) → n < bound → Acc ◌<◌ n
acc_of_lt zero n h = absurd (omega arith)
acc_of_lt (suc bound) n h = Acc.intro n (λ m below. acc_of_lt bound m (omega arith))

tenth-lt : {n : ℕ} → ¬ (n < 10) → n / 10 < n
tenth-lt h = omega arith

digit : ℕ → String
digit d =
    if eqb d 0
    then "0"
    else if eqb d 1
    then "1"
    else if eqb d 2
    then "2"
    else if eqb d 3
    then "3"
    else if eqb d 4
    then "4"
    else if eqb d 5
    then "5"
    else if eqb d 6
    then "6"
    else if eqb d 7
    then "7"
    else if eqb d 8
    then "8"
    else "9"

decimal_digits : (n : ℕ) → Acc ◌<◌ n → String
decimal_digits n (Acc.intro _ smaller) =
    dite (dec_lt n 10) (λ _. digit n)
      (λ h. decimal_digits (n / 10) (smaller (n / 10) (tenth-lt h)) ++ digit (n % 10))

-- `%d` of an unsigned number.
unfoldable pub decimal : ℕ → String
unfolding decimal_digits digit acc_of_lt tenth-lt dec_lt
decimal n = decimal_digits n (acc_of_lt (suc n) n (omega arith))

-- `strings.Join(parts, sep)`
unfoldable pub join_with : String → List String → String
join_with sep [] = ""
join_with sep (p ∷ []) = p
join_with sep (p ∷ q ∷ rest) = p ++ sep ++ join_with sep (q ∷ rest)

-- `a <= b` on Go strings, which compares bytes.
abbrev pub text_leb : String → String → Bool
text_leb a b = is_le (compare a b)

insert_sorted : String → List String → List String
insert_sorted s [] = s ∷ []
insert_sorted s (t ∷ rest) = if text_leb s t then s ∷ t ∷ rest else t ∷ insert_sorted s rest

-- `sort.Strings`
unfoldable pub sort_strings : List String → List String
unfolding insert_sorted
sort_strings [] = []
sort_strings (s ∷ rest) = insert_sorted s (sort_strings rest)

-- `strings.Split` at a character.
cons_first : String → List String → List String
cons_first c [] = c ∷ []
cons_first c (w ∷ ws) = (c ++ w) ∷ ws

unfoldable pub split_on : ℕ → String → List String
unfolding cons_first
split_on sep String.[] = "" ∷ []
split_on sep (String.◌∷◌ c s) =
    let rest = split_on sep s in
    if eqb (code c) sep then "" ∷ rest else cons_first (String.◌∷◌ c "") rest

-- `strings.CutPrefix` with whether there was the prefix.
unfoldable pub cut_text : String → String → Option String
cut_text String.[] s = some s
cut_text (String.◌∷◌ c p) String.[] = none
cut_text (String.◌∷◌ c p) (String.◌∷◌ d s) =
    let rest = cut_text p s in if eqb (code c) (code d) then rest else none

-- An ASCII digit.
abbrev pub is_digit : ℕ → Bool
is_digit c = leb 48 c && leb c 57

-- The leading digits, and what follows them.
unfoldable pub span_digits : String → List ℕ × String
span_digits String.[] = ([], "")
span_digits (String.◌∷◌ c rest) =
    let (ds, more) = span_digits rest in
    if is_digit (code c) then (code c ∷ ds, more) else ([], String.◌∷◌ c rest)

-- The number that digits spell.
unfoldable pub digits_value : ℕ → List ℕ → ℕ
digits_value n [] = n
digits_value n (c ∷ rest) = digits_value (n * 10 + (c - 48)) rest

-- Sorting keeps the members.
any-insert_sorted :
    (p : String → Bool) (s : String) (ts : List String)
    → any p (insert_sorted s ts) ≡ (p s || any p ts)
unfolding insert_sorted
any-insert_sorted p s [] = refl
any-insert_sorted p s (t ∷ rest) = ground (arith, any-insert_sorted p s rest)

pub any-sort_strings : (p : String → Bool) (ts : List String) → any p (sort_strings ts) ≡ any p ts
unfolding sort_strings
any-sort_strings p [] = refl
any-sort_strings p (s ∷ rest) =
    ground (arith, any-insert_sorted p s (sort_strings rest), any-sort_strings p rest)

-- The characters of a text, and of its lower case. The two characters outside ASCII whose lower
-- case is in it are the Kelvin sign and the dotted capital I; the others are kept as they are.
unfoldable pub codes : String → List ℕ
codes String.[] = []
codes (String.◌∷◌ c s) = code c ∷ codes s

lower_code : ℕ → ℕ
lower_code c =
    if leb 65 c && leb c 90
    then c + 32
    else if eqb c 0x212a
    then 107
    else if eqb c 0x130
    then 105
    else c

-- `strings.ToLower`, as far as tests for ASCII words see it.
unfoldable pub lower_codes : String → List ℕ
unfolding lower_code
lower_codes String.[] = []
lower_codes (String.◌∷◌ c s) = lower_code (code c) ∷ lower_codes s

begins_with : List ℕ → List ℕ → Bool
begins_with s [] = true
begins_with [] (w ∷ ws) = false
begins_with (c ∷ s) (w ∷ ws) = eqb c w && begins_with s ws

-- `strings.Contains`
unfoldable pub contains_codes : List ℕ → List ℕ → Bool
unfolding begins_with
contains_codes [] word = begins_with [] word
contains_codes (c ∷ s) word = begins_with (c ∷ s) word || contains_codes s word

decimal_test : decimal 81920 ≡ "81920"
unfolding decimal
decimal_test = refl

sort_test : join_with ", " (sort_strings ("b" ∷ "c" ∷ "a" ∷ [])) ≡ "a, b, c"
unfolding join_with sort_strings
sort_test = refl
