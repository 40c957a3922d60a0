-- ===== src/ModelClaim/Cel/Nvidia/Meaning.antt =====
-- What the selector of NvidiaFitCEL means on a device.
use mathlib.Core.List
use llmfit_dra.Prelude.{
  String, ◌^◌, none, some, List, [], ◌∷◌, Bool, true, false, ◌||◌, ◌&&◌, ◌==◌, ◌≡◌, refl, ap, ◌∙◌,
  any, any-append, All, arith, if◌then◌else◌,
}
use llmfit_dra.Prelude.Maps.{lookup, has_key}
use llmfit_dra.Prelude.Text.{sort_strings, any-sort_strings}
use llmfit_dra.Prelude.Int64.{ℤ, pos, ltb64, leb64}
use llmfit_dra.Index.{NvidiaBoards, all_boards}
use llmfit_dra.Resource.{Device, DeviceAttribute}
use llmfit_dra.ModelClaim.Backend.{nvidia_branches_for}
use llmfit_dra.ModelClaim.Bounds.{Bounds, nvidia_mem_floor_mib}
use llmfit_dra.ModelClaim.Cel.{
  Expr, Truth, holds, fails, raises, of_bool, scale, factor, meaning, group, conj, attribute_is,
  attribute_in, capacity_at_least, mebi,
}
use llmfit_dra.ModelClaim.Cel.Nvidia.{MigGroup, mig_groups, admitted_products}
use llmfit_dra.ModelClaim.Cel.Nvidia.Groups.{group_passes}
use llmfit_dra.ModelClaim.Cel.Nvidia.Render.{
  mig_clause_expr, any_of, mig_exprs, gpu_exprs, close_exprs, nvidia_expr,
}

abbrev pub is_holds : Truth → Bool
is_holds holds = true
is_holds fails = false
is_holds raises = false

module _ (dev : Device) where
  abbrev holds_at : Expr → Bool
  holds_at e = is_holds (meaning e dev)

  -- The expression raises no error.
  abbrev Decided : Expr → Type 0
  Decided e = meaning e dev ≡ of_bool (holds_at e)

  decided : (e : Expr) (b : Bool) → meaning e dev ≡ of_bool b → Decided e × (holds_at e ≡ b)
  decided e true h = ground arith
  decided e false h = ground arith

  single :
      (e : Expr) (b : Bool)
      → meaning e dev ≡ of_bool b
      → All Decided (e ∷ []) × (any holds_at (e ∷ []) ≡ b)
  single e b h = let one = decided e b h in ((one.0, tt), ground (arith, one.1))

  All-append : (xs ys : List Expr) → All Decided xs → All Decided ys → All Decided (List.◌++◌ xs ys)
  All-append [] ys left right = right
  All-append (x ∷ xs) ys left right = (left.0, All-append xs ys left.1 right)

  closed-fails :
      (es : List Expr)
      → (has_key "type" dev.attributes
          && has_key "productName" dev.attributes
          && has_key "memory" dev.capacity)
        ≡ false
      → meaning (close_exprs es) dev ≡ fails
  unfolding meaning
  closed-fails [] h = refl
  closed-fails (e ∷ rest) h = ground arith

  any_of-meaning :
      (e : Expr) (rest : List Expr)
      → Decided e
      → All Decided rest
      → meaning (any_of e rest) dev ≡ of_bool (any holds_at (e ∷ rest))
  unfolding any_of meaning
  any_of-meaning e [] h every = ground (arith, h)
  any_of-meaning e (f ∷ rest) h every =
      ground (arith, h, every.0, any_of-meaning f rest every.0 every.1)

  -- A partition of memory `v` has the memory and the multiprocessors of a threshold pair.
  abbrev pub carries : ℤ → ℤ × ℤ → Bool
  carries v (thr, sms) =
      leb64 (scale (2 ^ 20) thr) v
      && (if ltb64 (pos 0) sms
          then (elim (lookup "multiprocessors" dev.capacity) [
            | none ↦ false
            | some n ↦ leb64 (scale 1 sms) n
          ])
          else true)

  -- A device with its type, product and memory.
  module _ (kind name : DeviceAttribute) (t p : String) (v : ℤ)
      (typed : lookup "type" dev.attributes ≡ some kind) (is_t : kind.string_value ≡ some t)
      (named : lookup "productName" dev.attributes ≡ some name) (is_p : name.string_value ≡ some p)
      (sized : lookup "memory" dev.capacity ≡ some v) where
    mig_clause-meaning :
        (g : MigGroup) → meaning (mig_clause_expr g) dev ≡ of_bool (group_passes p (carries v) g)
    unfolding meaning factor
    mig_clause-meaning g = ground arith

    mig_clauses-Decided :
        (gs : List MigGroup)
        → All Decided (List.map mig_clause_expr gs)
          × (any holds_at (List.map mig_clause_expr gs) ≡ any (group_passes p (carries v)) gs)
    mig_clauses-Decided [] = (tt, refl)
    mig_clauses-Decided (g ∷ rest) =
        let first = decided (mig_clause_expr g) _ (mig_clause-meaning g) in
        let others = mig_clauses-Decided rest in
        ((first.0, others.0), ground (arith, first.1, others.1))

    mig_branch-meaning :
        (g : MigGroup) (rest : List MigGroup)
        → meaning
            (group (
              conj
                (attribute_is "type" "mig")
                (group (any_of (mig_clause_expr g) (List.map mig_clause_expr rest)))))
            dev
          ≡ of_bool (t == "mig" && any (group_passes p (carries v)) (g ∷ rest))
    unfolding meaning
    mig_branch-meaning g rest =
        let clauses = mig_clauses-Decided (g ∷ rest) in
        ground (
          arith,
          any_of-meaning (mig_clause_expr g) (List.map mig_clause_expr rest) clauses.0.0
              clauses.0.1,
          clauses.1,
        )

    gpu_branch-meaning :
        (b : Bounds) (q : String) (rest : List String)
        → meaning
            (group (
              conj (attribute_is "type" "gpu") (
                conj
                  (attribute_in "productName" (sort_strings (q ∷ rest)))
                  (capacity_at_least "memory" (nvidia_mem_floor_mib b) mebi))))
            dev
          ≡ of_bool (
              t == "gpu"
              && (any (λ s. s == p) (q ∷ rest)
                  && leb64 (scale (2 ^ 20) (nvidia_mem_floor_mib b)) v))
    unfolding meaning factor
    gpu_branch-meaning b q rest = ground (arith, any-sort_strings (λ s. s == p) (q ∷ rest))

    mig_exprs-Decided :
        (gs : List MigGroup)
        → All Decided (mig_exprs gs)
          × (any holds_at (mig_exprs gs) ≡ (t == "mig" && any (group_passes p (carries v)) gs))
    mig_exprs-Decided [] = (tt, ground arith)
    mig_exprs-Decided (g ∷ rest) = single _ _ (mig_branch-meaning g rest)

    gpu_exprs-Decided :
        (b : Bounds) (ps : List String)
        → All Decided (gpu_exprs b ps)
          × (any holds_at (gpu_exprs b ps) ≡ (
              t == "gpu"
              && (any (λ s. s == p) ps && leb64 (scale (2 ^ 20) (nvidia_mem_floor_mib b)) v)))
    gpu_exprs-Decided b [] = (tt, ground arith)
    gpu_exprs-Decided b (q ∷ rest) = single _ _ (gpu_branch-meaning b q rest)

    close_exprs-meaning :
        (es : List Expr) → All Decided es → meaning (close_exprs es) dev ≡ of_bool (any holds_at es)
    unfolding meaning
    close_exprs-meaning [] every = refl
    close_exprs-meaning (e ∷ rest) every = ground (arith, any_of-meaning e rest every.0 every.1)

    joined-meaning :
        (xs ys : List Expr) (x y : Bool)
        → All Decided xs × (any holds_at xs ≡ x)
        → All Decided ys × (any holds_at ys ≡ y)
        → meaning (close_exprs (List.◌++◌ xs ys)) dev ≡ of_bool (x || y)
    joined-meaning xs ys x y left right =
        close_exprs-meaning _ (All-append xs ys left.0 right.0)
        ∙ ap of_bool (any-append holds_at xs ys ∙ rw (left.1, right.1))

    if-Decided :
        (want : Bool) (es : List Expr) (x : Bool)
        → All Decided es × (any holds_at es ≡ x)
        → All Decided (if want then es else [])
          × (any holds_at (if want then es else []) ≡ (want && x))
    if-Decided true es x h = h
    if-Decided false es x h = (tt, refl)

    -- The selector raises no error, and is the disjunction of its two branches.
    pub nvidia_expr-meaning :
        (b : Bounds) (boards : NvidiaBoards) (class : String) (c : ℤ)
        → meaning (nvidia_expr b boards class c) dev
          ≡ of_bool (
              (nvidia_branches_for class).0
                && (t == "mig" && any (group_passes p (carries v)) (mig_groups boards b c))
              || (nvidia_branches_for class).1
                && (t == "gpu"
                    && (any (λ s. s == p) (admitted_products b c (all_boards boards))
                        && leb64 (scale (2 ^ 20) (nvidia_mem_floor_mib b)) v)))
    unfolding nvidia_expr
    nvidia_expr-meaning b boards class c =
        let (want_mig, want_gpu) = nvidia_branches_for class in
        joined-meaning _ _ _ _ (if-Decided want_mig _ _ (mig_exprs-Decided (mig_groups boards b c)))
          (if-Decided want_gpu _ _
            (gpu_exprs-Decided b (admitted_products b c (all_boards boards))))

-- Without its type, its product or its memory a device is not selected.
pub unguarded-fails :
    (dev : Device) (b : Bounds) (boards : NvidiaBoards) (class : String) (c : ℤ)
    → (has_key "type" dev.attributes
        && has_key "productName" dev.attributes
        && has_key "memory" dev.capacity)
      ≡ false
    → meaning (nvidia_expr b boards class c) dev ≡ fails
unfolding nvidia_expr
unguarded-fails dev b boards class c h = closed-fails dev _ h
