-- ===== src/ModelClaim/Cel/Nvidia/Groups.antt =====
-- migGroups of nvidia.go: which boards the groups stand for.
use Prim.Native.String.{◌++◌}
use text.Mathlib.TextLemmas.{cons-append, append_cancel_left}
use llmfit_dra.Prelude.{
  String, Option, none, some, List, [], ◌∷◌, Bool, true, false, ◌||◌, ◌&&◌, ◌==◌, ◌≡◌, refl, sym,
  subst, ap, ◌∙◌, any, any-append, arith, eq_iff, eq_refl, inl, inr, Option-cases,
}
use llmfit_dra.Prelude.Maps.{
  GoMap, lookup, insert, all_entries, all_entries-insert, lookup-all_entries,
}
use llmfit_dra.Prelude.Text.{sort_strings, any-sort_strings}
use llmfit_dra.Prelude.Text.Decimal.{Headless, cons-Headless, nil-Headless}
use llmfit_dra.Prelude.Int64.{ℤ, decimal64}
use llmfit_dra.Prelude.Int64.Print.{decimal64-append_injective}
use llmfit_dra.Index.{NvidiaBoard, NvidiaBoards, all_boards}
use llmfit_dra.ModelClaim.Bounds.{Bounds}
use llmfit_dra.ModelClaim.Thresholds.{gpu_admits}
use llmfit_dra.ModelClaim.Cel.Nvidia.{
  MigGroup, mig_pair, group_key, add_product, add_board, add_boards, insert_group, sorted_groups,
  mig_groups, admitted_products,
}

slash-Headless : (s : String) → Headless ("/" ++ s)
slash-Headless s = subst Headless (sym (cons-append "/" "" s)) (cons-Headless "/" ("" ++ s) refl)

-- The key of a group tells its thresholds.
group_key_injective : (a b : ℤ × ℤ) → group_key a ≡ group_key b → a ≡ b
unfolding group_key
group_key_injective (thr, sms) (thr', sms') e =
    let first =
      decimal64-append_injective thr thr' ("/" ++ decimal64 sms) ("/" ++ decimal64 sms')
        (slash-Headless _) (slash-Headless _) e in
    let second =
      decimal64-append_injective sms sms' "" "" nil-Headless nil-Headless
        (ap (λ t. t ++ "") (append_cancel_left "/" _ _ first.1)) in
    λ i. (first.0 i, second.0 i)

abbrev pair_of : MigGroup → ℤ × ℤ
pair_of g = (g.threshold_mib, g.min_sms)

-- Each group stands under its own key.
abbrev Keyed : GoMap MigGroup → Type 0
Keyed groups = all_entries (λ k g. k == group_key (pair_of g)) groups ≡ true

nil-Keyed : Keyed []
unfolding all_entries
nil-Keyed = refl

module _ {ℓ} {V : Type ℓ} (q : V → Bool) where
  abbrev any_entry : GoMap V → Bool
  any_entry = any (λ e. q e.1)

  any-insert_new :
      (k : String) (v : V) (m : GoMap V)
      → lookup k m ≡ none
      → any_entry (insert k v m) ≡ (any_entry m || q v)
  unfolding lookup insert
  any-insert_new k v [] h = ground arith
  any-insert_new k v ((j, w) ∷ m) h = ground (arith, any-insert_new k v m)

  any-insert_old :
      (k : String) (v w : V) (x : Bool) (m : GoMap V)
      → lookup k m ≡ some w
      → q v ≡ (q w || x)
      → any_entry (insert k v m) ≡ (any_entry m || x)
  unfolding lookup insert
  any-insert_old k v w x [] h e = ground arith
  any-insert_old k v w x ((j, u) ∷ m) h e = ground (arith, any-insert_old k v w x m)

-- A test of the thresholds of a board, if it has any.
abbrev pub pair_passes : (ℤ × ℤ → Bool) → Option (ℤ × ℤ) → Bool
pair_passes q none = false
pair_passes q (some pair) = q pair

module _ (name : String) (q : ℤ × ℤ → Bool) where
  -- The group lists the name, and its thresholds pass.
  abbrev pub group_passes : MigGroup → Bool
  group_passes g = any (λ p. p == name) g.products && q (pair_of g)

  -- A group that is found under a key has the thresholds of the key.
  found-pair :
      (pair : ℤ × ℤ) (groups : GoMap MigGroup) (g : MigGroup)
      → Keyed groups
      → lookup (group_key pair) groups ≡ some g
      → pair ≡ pair_of g
  found-pair pair groups g keyed found = group_key_injective pair (pair_of g) (
      (eq_iff _ _).0 (
        lookup-all_entries (λ k g. k == group_key (pair_of g)) (group_key pair) g groups keyed
          found))

  add_product-Keyed :
      (pair : ℤ × ℤ) (product : String) (groups : GoMap MigGroup)
      → Keyed groups
      → Keyed (add_product pair product groups)
  unfolding add_product
  add_product-Keyed pair product groups keyed =
      elim (Option-cases (lookup (group_key pair) groups)) [
        | inl new ↦
            rw (new, add_product)
              (all_entries-insert _ (group_key pair) _ groups (eq_refl (group_key pair)) keyed)
        | inr (g, old) ↦
            rw (old, add_product)
              (all_entries-insert _ (group_key pair) _ groups
                ((eq_iff _ _).1 (ap group_key (found-pair pair groups g keyed old))) keyed)
      ]

  add_product-passes :
      (pair : ℤ × ℤ) (product : String) (groups : GoMap MigGroup)
      → Keyed groups
      → any_entry group_passes (add_product pair product groups)
        ≡ (any_entry group_passes groups || (product == name && q pair))
  unfolding add_product
  add_product-passes pair product groups keyed =
      elim (Option-cases (lookup (group_key pair) groups)) [
        | inl new ↦
            rw (new, add_product)
              (any-insert_new group_passes (group_key pair) _ groups new ∙ ground arith)
        | inr (g, old) ↦
            rw (old, add_product)
              (any-insert_old group_passes (group_key pair) _ g (product == name && q pair) groups
                old
                (rw (found-pair pair groups g keyed old)
                  (rw (any-append (λ p. p == name) g.products (product ∷ [])) (ground arith))))
      ]

  -- A board that is listed under the name, with thresholds that pass.
  abbrev pub listed : Bounds → ℤ → NvidiaBoard → Bool
  listed b c board = board.product_name == name && pair_passes q (mig_pair b c board)

  add_boards-passes :
      (b : Bounds) (c : ℤ) (boards : List NvidiaBoard) (groups : GoMap MigGroup)
      → Keyed groups
      → any_entry group_passes (add_boards b c boards groups)
        ≡ (any_entry group_passes groups || any (listed b c) boards)
  unfolding add_boards add_board
  add_boards-passes b c [] groups keyed = ground arith
  add_boards-passes b c (board ∷ rest) groups keyed = elim (Option-cases (mig_pair b c board)) [
    | inl e ↦ rw (e, add_board) (add_boards-passes b c rest groups keyed ∙ ground arith)
    | inr (pair, e) ↦
        rw (e, add_board)
          (add_boards-passes b c rest (add_product pair board.product_name groups)
              (add_product-Keyed pair board.product_name groups keyed)
            ∙ ground (arith, add_product-passes pair board.product_name groups keyed))
  ]

  any-insert_group :
      (f : MigGroup → Bool) (g : MigGroup) (gs : List MigGroup)
      → any f (insert_group g gs) ≡ (f g || any f gs)
  unfolding insert_group
  any-insert_group f g [] = refl
  any-insert_group f g (h ∷ rest) = ground (arith, any-insert_group f g rest)

  sorted_groups-passes :
      (groups : GoMap MigGroup)
      → any group_passes (sorted_groups groups) ≡ any_entry group_passes groups
  unfolding sorted_groups
  sorted_groups-passes [] = refl
  sorted_groups-passes ((k, g) ∷ rest) =
      any-insert_group group_passes (record g { products = sort_strings g.products })
        (sorted_groups rest)
      ∙ rw (sorted_groups-passes rest, any-sort_strings (λ p. p == name) g.products)

  -- Some group lists the name with thresholds that pass exactly if some board does.
  pub mig_groups-passes :
      (boards : NvidiaBoards) (b : Bounds) (c : ℤ)
      → any group_passes (mig_groups boards b c) ≡ any (listed b c) (all_boards boards)
  unfolding mig_groups
  mig_groups-passes boards b c =
      sorted_groups-passes (add_boards b c (all_boards boards) [])
      ∙ add_boards-passes b c (all_boards boards) [] nil-Keyed

-- The products of the GPU branch.
pub admitted_products-passes :
    (name : String) (b : Bounds) (c : ℤ) (boards : List NvidiaBoard)
    → any (λ p. p == name) (admitted_products b c boards)
      ≡ any (λ board. board.product_name == name && gpu_admits board b c) boards
unfolding admitted_products
admitted_products-passes name b c [] = refl
admitted_products-passes name b c (board ∷ rest) =
    ground (arith, admitted_products-passes name b c rest)
