-- ===== src/Prelude/Maps.antt =====
-- Go's `map[string]V` as an association list. What the program reads does not depend on the order
-- of the entries: where it iterates over a map, it sorts afterwards.
use Prim.Native.Nat.{◌+◌}
use Prim.Native.String.{String}
use mathlib.Core.Path.{◌≡◌, refl}
use mathlib.Core.Bool.{Bool, true, not, ◌&&◌}
use mathlib.Core.Option.{Option, none, some}
use mathlib.Core.List.{List, [], ◌∷◌, map}
use native.Mathlib.Omega.{arith}
use text.Mathlib.Text.{◌==◌}
use text.Mathlib.TextEquality.{eq_iff}
use text.Mathlib.TextPositions.{eq_refl}
use llmfit_dra.Prelude.Tests.{if◌then◌else◌, is_some}
use llmfit_dra.Prelude.Lists.{length}

abbrev pub GoMap {ℓ} : Type ℓ → Type ℓ
GoMap V = List (String × V)

module _ {ℓ} {V : Type ℓ} where
  -- `v, ok := m[key]`
  unfoldable pub lookup : String → GoMap V → Option V
  lookup key [] = none
  lookup key ((name, value) ∷ rest) = if name == key then some value else lookup key rest

  -- `m[key] = value`
  unfoldable pub insert : String → V → GoMap V → GoMap V
  insert key value [] = (key, value) ∷ []
  insert key value ((name, old) ∷ rest) =
      if name == key then (key, value) ∷ rest else (name, old) ∷ insert key value rest

  abbrev pub has_key : String → GoMap V → Bool
  has_key k m = is_some (lookup k m)

  abbrev pub keys : GoMap V → List String
  keys = map (λ e. e.0)

  -- What a write leaves at a key: the value at its own, and what was there at every other.
  pub lookup-insert :
      (key wanted : String) (value : V) (m : GoMap V)
      → lookup wanted (insert key value m) ≡ (if key == wanted then some value else lookup wanted m)
  unfolding lookup insert
  lookup-insert key wanted value [] = refl
  lookup-insert key wanted value ((name, old) ∷ rest) = ground (
    arith,
    lookup-insert key wanted value rest,
    eq_iff name wanted,
    eq_iff name key,
    eq_iff key wanted,
  )

  pub lookup-insert_self :
      (key : String) (value : V) (m : GoMap V) → lookup key (insert key value m) ≡ some value
  lookup-insert_self key value m = ground (arith, lookup-insert key key value m, eq_refl key)

  -- `len(m)` grows by one exactly when the key is new.
  pub length-insert :
      (k : String) (v : V) (m : GoMap V)
      → length (insert k v m) ≡ (if has_key k m then length m else length m + 1)
  unfolding lookup insert
  length-insert k v [] = omega arith
  length-insert k v ((i, w) ∷ m) = ground (arith, length-insert k v m)

  -- A test that every entry passes.
  unfoldable pub all_entries : (String → V → Bool) → GoMap V → Bool
  all_entries p [] = true
  all_entries p ((name, v) ∷ rest) = p name v && all_entries p rest

  pub all_entries-insert :
      (p : String → V → Bool) (key : String) (v : V) (m : GoMap V)
      → p key v ≡ true
      → all_entries p m ≡ true
      → all_entries p (insert key v m) ≡ true
  unfolding all_entries insert
  all_entries-insert p key v [] h every = ground arith
  all_entries-insert p key v ((name, old) ∷ rest) h every =
      ground (arith, all_entries-insert p key v rest h)

  pub lookup-all_entries :
      (p : String → V → Bool) (key : String) (v : V) (m : GoMap V)
      → all_entries p m ≡ true
      → lookup key m ≡ some v
      → p key v ≡ true
  unfolding all_entries lookup
  lookup-all_entries p key v [] every found = ground arith
  lookup-all_entries p key v ((name, old) ∷ rest) every found =
      ground (arith, lookup-all_entries p key v rest, eq_iff name key)

  -- A map has one entry for a key.
  abbrev pub distinct_keys : GoMap V → Bool
  distinct_keys [] = true
  distinct_keys ((name, v) ∷ rest) = not (has_key name rest) && distinct_keys rest
