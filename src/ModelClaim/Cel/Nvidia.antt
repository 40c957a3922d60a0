-- ===== src/ModelClaim/Cel/Nvidia.antt =====
-- nvidia.go: the selector for gpu.nvidia.com devices.
pub mod Render
pub mod Groups
pub mod Meaning
pub mod Floor
pub mod Agrees
pub mod Counts
use Prim.Native.String.{◌++◌}
use mathlib.Core.List
use llmfit_dra.Prelude.{String, Option, none, some, List, [], ◌∷◌, Bool, true, false, if◌then◌else◌}
use llmfit_dra.Prelude.Maps.{GoMap, lookup, insert}
use llmfit_dra.Prelude.Text.{join_with, sort_strings}
use llmfit_dra.Prelude.Int64.{ℤ, pos, ltb64, eqb64, decimal64}
use llmfit_dra.Index.{NvidiaBoard, NvidiaBoards, all_boards}
use llmfit_dra.ModelClaim.Backend.{nvidia_driver_domain, nvidia_branches_for}
use llmfit_dra.ModelClaim.Bounds.{Bounds, nvidia_mem_floor_mib}
use llmfit_dra.ModelClaim.Thresholds.{mig_threshold_mib, mig_min_sms, gpu_admits}
use llmfit_dra.ModelClaim.Cel.{
  cel_product_list, in_capacity, capacity_ref, in_attributes, attribute_ref,
}

pub record MigGroup : Type 0 where
  pub threshold_mib : ℤ
  pub min_sms : ℤ
  pub products : List String

-- The two guards of the loop of `migGroups`: the threshold pair of a board.
unfoldable pub mig_pair : Bounds → ℤ → NvidiaBoard → Option (ℤ × ℤ)
mig_pair b min_compute board = elim (mig_threshold_mib board b) [
  | none ↦ none
  | some thr ↦ elim (mig_min_sms board min_compute) [ none ↦ none | some sms ↦ some (thr, sms) ]
]

group_key : ℤ × ℤ → String
group_key (thr, sms) = decimal64 thr ++ "/" ++ decimal64 sms

-- `g.products = append(g.products, board.ProductName)` on the group of the pair.
add_product : ℤ × ℤ → String → GoMap MigGroup → GoMap MigGroup
add_product (thr, sms) product groups = elim (lookup (group_key (thr, sms)) groups) [
  | none ↦
      insert (group_key (thr, sms))
        (record { threshold_mib = thr; min_sms = sms; products = product ∷ [] }) groups
  | some g ↦
      insert (group_key (thr, sms)) (record g { products = List.◌++◌ g.products (product ∷ []) })
        groups
]

add_board : Option (ℤ × ℤ) → String → GoMap MigGroup → GoMap MigGroup
add_board none product groups = groups
add_board (some pair) product groups = add_product pair product groups

add_boards : Bounds → ℤ → List NvidiaBoard → GoMap MigGroup → GoMap MigGroup
add_boards b min_compute [] groups = groups
add_boards b min_compute (board ∷ rest) groups =
    add_boards b min_compute rest
      (add_board (mig_pair b min_compute board) board.product_name groups)

group_leb : MigGroup → MigGroup → Bool
group_leb g h =
    if eqb64 g.threshold_mib h.threshold_mib
    then (if ltb64 h.min_sms g.min_sms then false else true)
    else ltb64 g.threshold_mib h.threshold_mib

insert_group : MigGroup → List MigGroup → List MigGroup
insert_group g [] = g ∷ []
insert_group g (h ∷ rest) = if group_leb g h then g ∷ h ∷ rest else h ∷ insert_group g rest

-- The two sorts after the loop.
sorted_groups : GoMap MigGroup → List MigGroup
sorted_groups [] = []
sorted_groups ((k, g) ∷ rest) =
    insert_group (record g { products = sort_strings g.products }) (sorted_groups rest)

-- `migGroups`
unfoldable pub mig_groups : NvidiaBoards → Bounds → ℤ → List MigGroup
unfolding mig_pair group_key add_product add_board add_boards group_leb insert_group sorted_groups
    sort_strings
mig_groups boards b min_compute = sorted_groups (add_boards b min_compute (all_boards boards) [])

mig_clause : MigGroup → String
mig_clause g =
    let n = nvidia_driver_domain in
    let clause =
      "("
      ++ attribute_ref n "productName"
      ++ " in "
      ++ cel_product_list g.products
      ++ " && "
      ++ capacity_ref n "memory"
      ++ ".compareTo(quantity('"
      ++ decimal64 g.threshold_mib
      ++ "Mi')) >= 0" in
    (if ltb64 (pos 0) g.min_sms
      then clause
        ++ (" && "
            ++ in_capacity n "multiprocessors"
            ++ " && "
            ++ capacity_ref n "multiprocessors"
            ++ ".compareTo(quantity('"
            ++ decimal64 g.min_sms
            ++ "')) >= 0")
      else clause)
    ++ ")"

mig_branch : List MigGroup → List String
mig_branch [] = []
mig_branch (g ∷ rest) =
    ("("
      ++ attribute_ref nvidia_driver_domain "type"
      ++ " == 'mig' && ("
      ++ join_with " || " (List.map mig_clause (g ∷ rest))
      ++ "))")
    ∷ []

pub admitted_products : Bounds → ℤ → List NvidiaBoard → List String
admitted_products b min_compute [] = []
admitted_products b min_compute (board ∷ rest) =
    let others = admitted_products b min_compute rest in
    if gpu_admits board b min_compute then board.product_name ∷ others else others

gpu_branch : Bounds → List String → List String
gpu_branch b [] = []
gpu_branch b (p ∷ rest) =
    let n = nvidia_driver_domain in
    ("("
      ++ attribute_ref n "type"
      ++ " == 'gpu' && "
      ++ attribute_ref n "productName"
      ++ " in "
      ++ cel_product_list (sort_strings (p ∷ rest))
      ++ " && "
      ++ capacity_ref n "memory"
      ++ ".compareTo(quantity('"
      ++ decimal64 (nvidia_mem_floor_mib b)
      ++ "Mi')) >= 0)")
    ∷ []

close_branches : List String → String
close_branches [] = "false"
close_branches (p ∷ rest) =
    let n = nvidia_driver_domain in
    in_attributes n "type"
    ++ " && "
    ++ in_attributes n "productName"
    ++ " && "
    ++ in_capacity n "memory"
    ++ " && ("
    ++ join_with " || " (p ∷ rest)
    ++ ")"

-- `NvidiaFitCEL`
unfoldable pub nvidia_fit_cel : Bounds → NvidiaBoards → String → ℤ → String
unfolding mig_clause mig_branch admitted_products gpu_branch close_branches
nvidia_fit_cel b boards class min_compute =
    let (want_mig, want_gpu) = nvidia_branches_for class in
    let mig : List String = if want_mig then mig_branch (mig_groups boards b min_compute) else [] in
    let gpu : List String =
      if want_gpu then gpu_branch b (admitted_products b min_compute (all_boards boards)) else [] in
    close_branches (List.◌++◌ mig gpu)
