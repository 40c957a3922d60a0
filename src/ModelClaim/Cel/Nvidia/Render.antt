-- ===== src/ModelClaim/Cel/Nvidia/Render.antt =====
-- NvidiaFitCEL of nvidia.go, and the expression that its text is.
use Prim.Native.String.{◌++◌}
use mathlib.Core.List
use text.Mathlib.TextLemmas.{append_assoc}
use llmfit_dra.Prelude.{String, List, [], ◌∷◌, ◌≡◌, refl, ap, if◌then◌else◌, inl, inr, Bool-cases}
use llmfit_dra.Prelude.Text.{join_with, sort_strings}
use llmfit_dra.Prelude.Int64.{ℤ, pos, ltb64, decimal64}
use llmfit_dra.Index.{NvidiaBoards, all_boards}
use llmfit_dra.ModelClaim.Backend.{nvidia_driver_domain, nvidia_branches_for}
use llmfit_dra.ModelClaim.Bounds.{Bounds, nvidia_mem_floor_mib}
use llmfit_dra.ModelClaim.Cel.{
  Expr, falsum, capacity_present, capacity_at_least, plain, mebi, attribute_present, attribute_is,
  attribute_in, conj, disj, group, render, cel_product_list, in_capacity, capacity_ref,
  in_attributes, attribute_ref,
}
use llmfit_dra.ModelClaim.Cel.Nvidia.{
  MigGroup, mig_groups, mig_clause, mig_branch, admitted_products, gpu_branch, close_branches,
  nvidia_fit_cel,
}

abbrev pub mig_clause_expr : MigGroup → Expr
mig_clause_expr g =
    let memory = capacity_at_least "memory" g.threshold_mib mebi in
    group (
      conj (attribute_in "productName" g.products) (
        if ltb64 (pos 0) g.min_sms
        then conj memory (
            conj (capacity_present "multiprocessors")
              (capacity_at_least "multiprocessors" g.min_sms plain))
        else memory))

-- The disjunction of one expression and more.
unfoldable pub any_of : Expr → List Expr → Expr
any_of e [] = e
any_of e (f ∷ rest) = disj e (any_of f rest)

abbrev pub mig_exprs : List MigGroup → List Expr
mig_exprs [] = []
mig_exprs (g ∷ rest) =
    group (
      conj (attribute_is "type" "mig")
        (group (any_of (mig_clause_expr g) (List.map mig_clause_expr rest))))
    ∷ []

abbrev pub gpu_exprs : Bounds → List String → List Expr
gpu_exprs b [] = []
gpu_exprs b (p ∷ rest) =
    group (
      conj (attribute_is "type" "gpu") (
        conj (attribute_in "productName" (sort_strings (p ∷ rest)))
          (capacity_at_least "memory" (nvidia_mem_floor_mib b) mebi)))
    ∷ []

abbrev pub close_exprs : List Expr → Expr
close_exprs [] = falsum
close_exprs (e ∷ rest) = conj (attribute_present "type") (
    conj (attribute_present "productName")
      (conj (capacity_present "memory") (group (any_of e rest))))

-- The selector of a claim on NVIDIA's driver, branch by branch.
unfoldable pub nvidia_expr : Bounds → NvidiaBoards → String → ℤ → Expr
unfolding admitted_products
nvidia_expr b boards class min_compute =
    let (want_mig, want_gpu) = nvidia_branches_for class in
    let mig : List Expr = if want_mig then mig_exprs (mig_groups boards b min_compute) else [] in
    let gpu : List Expr =
      if want_gpu then gpu_exprs b (admitted_products b min_compute (all_boards boards)) else [] in
    close_exprs (List.◌++◌ mig gpu)

abbrev printed : List Expr → List String
printed = List.map (render nvidia_driver_domain)

any_of-render :
    (e : Expr) (rest : List Expr)
    → render nvidia_driver_domain (any_of e rest) ≡ join_with " || " (printed (e ∷ rest))
unfolding any_of render join_with
any_of-render e [] = refl
any_of-render e (f ∷ rest) = rw (any_of-render f rest)

mig_clause-render : (g : MigGroup) → mig_clause g ≡ render nvidia_driver_domain (mig_clause_expr g)
unfolding mig_clause render
mig_clause-render g = elim (Bool-cases (ltb64 (pos 0) g.min_sms)) [
  | inl floor ↦ rw floor (simp append_assoc)
  | inr unset ↦ rw unset (simp append_assoc)
]

mig_clauses-render :
    (gs : List MigGroup) → List.map mig_clause gs ≡ printed (List.map mig_clause_expr gs)
mig_clauses-render [] = refl
mig_clauses-render (g ∷ rest) =
    rw (mig_clause-render g)
      (ap (λ t. render nvidia_driver_domain (mig_clause_expr g) ∷ t) (mig_clauses-render rest))

-- The two ways to bracket the pieces of a branch, for any pieces.
mig_shape :
    (o a b c d x e : String)
    → o ++ (a ++ ((b ++ c ++ d) ++ (x ++ (e ++ e)))) ≡ o ++ (((a ++ b) ++ c ++ d ++ x ++ e) ++ e)
mig_shape o a b c d x e = simp append_assoc

gpu_shape :
    (o a b c p i l q r s m e : String)
    → o ++ a ++ (b ++ c) ++ p ++ i ++ l ++ c ++ q ++ r ++ s ++ (m ++ e)
      ≡ o ++ (((a ++ b) ++ c ++ (p ++ i ++ l) ++ c ++ q ++ r ++ s ++ m) ++ e)
gpu_shape o a b c p i l q r s m e = simp append_assoc

close_shape :
    (a b d c o x e : String)
    → a ++ c ++ b ++ c ++ d ++ (c ++ o) ++ x ++ e ≡ a ++ c ++ b ++ c ++ d ++ c ++ o ++ x ++ e
close_shape a b d c o x e = simp append_assoc

abbrev type_ref : String
type_ref = attribute_ref nvidia_driver_domain "type"

mig_branch-render : (gs : List MigGroup) → mig_branch gs ≡ printed (mig_exprs gs)
unfolding mig_branch render
mig_branch-render [] = refl
mig_branch-render (g ∷ rest) =
    rw
      (
        any_of-render (mig_clause_expr g) (List.map mig_clause_expr rest),
        ← mig_clauses-render (g ∷ rest),
      )
      (ap (λ t. t ∷ []) (mig_shape "(" type_ref " == 'mig'" " && " "(" _ ")"))

gpu_branch-render : (b : Bounds) (ps : List String) → gpu_branch b ps ≡ printed (gpu_exprs b ps)
unfolding gpu_branch render
gpu_branch-render b [] = refl
gpu_branch-render b (p ∷ rest) =
    let d = nvidia_driver_domain in
    ap (λ t. t ∷ [])
      (gpu_shape "(" type_ref " == 'gpu'" " && " (attribute_ref d "productName") " in "
        (cel_product_list (sort_strings (p ∷ rest))) (capacity_ref d "memory")
        ".compareTo(quantity('" (decimal64 (nvidia_mem_floor_mib b)) "Mi')) >= 0" ")")

close_branches-render :
    (es : List Expr) → close_branches (printed es) ≡ render nvidia_driver_domain (close_exprs es)
unfolding close_branches render
close_branches-render [] = refl
close_branches-render (e ∷ rest) =
    let d = nvidia_driver_domain in
    rw (any_of-render e rest) (
      close_shape (in_attributes d "type") (in_attributes d "productName") (in_capacity d "memory")
        " && " "(" (join_with " || " (printed (e ∷ rest))) ")")

both-render :
    (mig gpu : List Expr)
    → close_branches (List.◌++◌ (printed mig) (printed gpu))
      ≡ render nvidia_driver_domain (close_exprs (List.◌++◌ mig gpu))
both-render mig gpu =
    rw (← List.map-append (render nvidia_driver_domain) mig gpu) (close_branches-render _)

-- NvidiaFitCEL prints exactly this expression.
pub nvidia_fit_cel-render :
    (b : Bounds) (boards : NvidiaBoards) (class : String) (c : ℤ)
    → nvidia_fit_cel b boards class c ≡ render nvidia_driver_domain (nvidia_expr b boards class c)
unfolding nvidia_fit_cel nvidia_expr
nvidia_fit_cel-render b boards class c =
    let mig = mig_exprs (mig_groups boards b c) in
    let gpu = gpu_exprs b (admitted_products b c (all_boards boards)) in
    rw
      (
        mig_branch-render (mig_groups boards b c),
        gpu_branch-render b (admitted_products b c (all_boards boards)),
      )
      (elim (Bool-cases (nvidia_branches_for class).0) [
        | inl m ↦ elim (Bool-cases (nvidia_branches_for class).1) [
          | inl g ↦ rw (m, g) (both-render mig gpu)
          | inr g ↦ rw (m, g) (both-render mig [])
        ]
        | inr m ↦ elim (Bool-cases (nvidia_branches_for class).1) [
          | inl g ↦ rw (m, g) (both-render [] gpu)
          | inr g ↦ rw (m, g) (both-render [] [])
        ]
      ])
