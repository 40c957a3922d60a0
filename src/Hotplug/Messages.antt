-- ===== src/Hotplug/Messages.antt =====
-- parseUevent of hotplug.go and the kernel's format "action@devpath\0KEY=VAL\0…".
use mathlib.Core.List.{◌++◌, map}
use llmfit_dra.Prelude.{
  ℕ, ◌≡◌, none, some, List, [], ◌∷◌, Bool, true, not, ◌&&◌, if◌then◌else◌, eqb, arith, refl, all,
  ap, ◌∙◌,
}
use llmfit_dra.Prelude.Text.{codes}
use llmfit_dra.Hotplug.Uevent.{
  Bytes, split_zero, has_at, before_at, cut_prefix, subsystem_of, parse_fields, parse_uevent,
  same_bytes,
}

-- One "KEY=VAL" field.
abbrev pub field_of : Bytes × Bytes → Bytes
field_of (key, value) = key ++ b'=' ∷ value

-- The kernel's message.
unfoldable pub with_zeros : List Bytes → Bytes
with_zeros [] = []
with_zeros (f ∷ fs) = f ++ 0 ∷ with_zeros fs

unfoldable pub message : Bytes → Bytes → List (Bytes × Bytes) → Bytes
unfolding with_zeros
message action devpath vars = with_zeros ((action ++ b'@' ∷ devpath) ∷ map field_of vars)

-- A text without a byte.
abbrev pub free_of : ℕ → Bytes → Bool
free_of c s = all (λ d. not (eqb d c)) s

-- Keys have no "=" and fields have no end of text.
abbrev pub well_formed : Bytes × Bytes → Bool
well_formed (key, value) = free_of b'=' key && free_of 0 key && free_of 0 value

-- The value of the last SUBSYSTEM.
unfoldable pub last_subsystem : List (Bytes × Bytes) → Bytes → Bytes
last_subsystem [] found = found
last_subsystem ((key, value) ∷ rest) found =
    last_subsystem rest (if same_bytes (codes "SUBSYSTEM") key then value else found)

free_of-append : (c : ℕ) (s t : Bytes) → free_of c (s ++ t) ≡ (free_of c s && free_of c t)
free_of-append c [] t = refl
free_of-append c (d ∷ s) t = ground (arith, free_of-append c s t)

split_zero-field : (f s : Bytes) → free_of 0 f ≡ true → split_zero (f ++ 0 ∷ s) ≡ f ∷ split_zero s
unfolding split_zero
split_zero-field [] s h = ground arith
split_zero-field (c ∷ f) s h = ground (arith, split_zero-field f s)

split_zero-with_zeros :
    (fs : List Bytes) → all (free_of 0) fs ≡ true → split_zero (with_zeros fs) ≡ fs ++ ([] ∷ [])
unfolding split_zero with_zeros
split_zero-with_zeros [] h = refl
split_zero-with_zeros (f ∷ fs) h =
    ground (arith, split_zero-field f (with_zeros fs), split_zero-with_zeros fs)

has_at-header : (action devpath : Bytes) → has_at (action ++ b'@' ∷ devpath) ≡ true
unfolding has_at
has_at-header [] devpath = ground arith
has_at-header (c ∷ action) devpath = ground (arith, has_at-header action devpath)

before_at-header :
    (action devpath : Bytes)
    → free_of b'@' action ≡ true
    → before_at (action ++ b'@' ∷ devpath) ≡ action
unfolding before_at
before_at-header [] devpath h = ground arith
before_at-header (c ∷ action) devpath h = ground (arith, before_at-header action devpath)

cut_prefix-key :
    (name key value : Bytes)
    → free_of b'=' name ≡ true
    → free_of b'=' key ≡ true
    → cut_prefix (name ++ b'=' ∷ []) (key ++ b'=' ∷ value)
      ≡ (if same_bytes name key then some value else none)
unfolding cut_prefix same_bytes
cut_prefix-key [] [] value h k = ground arith
cut_prefix-key [] (d ∷ key) value h k = ground arith
cut_prefix-key (c ∷ name) [] value h k = ground arith
cut_prefix-key (c ∷ name) (d ∷ key) value h k = ground (arith, cut_prefix-key name key value)

subsystem_value :
    (key value : Bytes)
    → free_of b'=' key ≡ true
    → cut_prefix (codes "SUBSYSTEM=") (key ++ b'=' ∷ value)
      ≡ (if same_bytes (codes "SUBSYSTEM") key then some value else none)
unfolding codes
subsystem_value key value h = cut_prefix-key (codes "SUBSYSTEM") key value refl h

no_subsystem :
    (found : Bytes)
    → (elim (cut_prefix (codes "SUBSYSTEM=") []) [ none ↦ found | some v ↦ v ]) ≡ found
unfolding codes cut_prefix
no_subsystem found = refl

subsystem_of-vars :
    (vars : List (Bytes × Bytes)) (found : Bytes)
    → all well_formed vars ≡ true
    → subsystem_of (map field_of vars ++ ([] ∷ [])) found ≡ last_subsystem vars found
unfolding subsystem_of last_subsystem
subsystem_of-vars [] found h = no_subsystem found
subsystem_of-vars ((key, value) ∷ rest) found h =
    ground
      (arith, subsystem_value key value, subsystem_of-vars rest found, subsystem_of-vars rest value)

fields-free :
    (vars : List (Bytes × Bytes))
    → all well_formed vars ≡ true
    → all (free_of 0) (map field_of vars) ≡ true
fields-free [] h = refl
fields-free ((key, value) ∷ rest) h =
    ground (arith, fields-free rest, free_of-append 0 key (b'=' ∷ value))

parse_fields-message :
    (action devpath : Bytes) (vars : List (Bytes × Bytes))
    → free_of b'@' action ≡ true
    → all well_formed vars ≡ true
    → parse_fields ((action ++ b'@' ∷ devpath) ∷ (map field_of vars ++ ([] ∷ [])))
      ≡ some (record { action = action; subsystem = last_subsystem vars [] })
unfolding parse_fields
parse_fields-message action devpath vars ha hv = ground (
  arith,
  has_at-header action devpath,
  before_at-header action devpath,
  subsystem_of-vars vars [],
)

-- parseUevent reads the action and the subsystem back from the kernel's message: for an action
-- without "@", keys without "=", and no part with a zero byte, the subsystem is that of the last
-- SUBSYSTEM variable.
pub parse_uevent-message :
    (action devpath : Bytes) (vars : List (Bytes × Bytes))
    → free_of b'@' action ≡ true
    → free_of 0 action ≡ true
    → free_of 0 devpath ≡ true
    → all well_formed vars ≡ true
    → parse_uevent (message action devpath vars)
      ≡ some (record { action = action; subsystem = last_subsystem vars [] })
unfolding parse_uevent message
parse_uevent-message action devpath vars ha h0 hd hv =
    ap parse_fields (
      split_zero-with_zeros ((action ++ b'@' ∷ devpath) ∷ map field_of vars)
        (ground (arith, free_of-append 0 action (b'@' ∷ devpath), fields-free vars)))
    ∙ parse_fields-message action devpath vars ha hv
