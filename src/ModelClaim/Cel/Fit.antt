-- ===== src/ModelClaim/Cel/Fit.antt =====
-- FitCEL of template.go, and the expression that its text is.
use Prim.Native.String.{◌++◌}
use text.Mathlib.TextLemmas.{append_assoc}
use llmfit_dra.Prelude.{String, ◌≡◌, ◌==◌, if◌then◌else◌, inl, inr, Bool-cases}
use llmfit_dra.Prelude.Text.{decimal}
use llmfit_dra.Prelude.Int64.{ℤ, pos, ltb64, decimal64}
use llmfit_dra.ModelClaim.Backend.{driver_domain, cpu_class}
use llmfit_dra.ModelClaim.Bounds.{Bounds}
use llmfit_dra.ModelClaim.Cel.{
  Expr, capacity_present, capacity_at_least, gibi, attribute_present, attribute_at_least,
  attribute_holds, conj, render, in_capacity, capacity_ref, in_attributes, attribute_ref,
}

-- `FitCEL`
unfoldable pub fit_cel : Bounds → String → ℤ → String
fit_cel b class min_compute =
    let d = driver_domain in
    let memory =
      in_capacity d "memory"
      ++ " && "
      ++ capacity_ref d "memory"
      ++ ".compareTo(quantity('"
      ++ decimal b.memory_gi
      ++ "Gi')) >= 0" in
    let bandwidth =
      in_attributes d "memoryBandwidthGBs"
      ++ " && "
      ++ attribute_ref d "memoryBandwidthGBs"
      ++ " >= "
      ++ decimal b.min_bandwidth_gbs in
    let healthy = in_attributes d "healthy" ++ " && " ++ attribute_ref d "healthy" in
    let expr =
      if class == cpu_class
      then memory ++ " && " ++ healthy
      else memory ++ " && " ++ bandwidth ++ " && " ++ healthy in
    if ltb64 (pos 0) min_compute
    then expr
      ++ (" && "
          ++ in_attributes d "computeTFLOPS"
          ++ " && "
          ++ attribute_ref d "computeTFLOPS"
          ++ " >= "
          ++ decimal64 min_compute)
    else expr

abbrev memory_expr : Bounds → Expr
memory_expr b = conj (capacity_present "memory") (capacity_at_least "memory" (pos b.memory_gi) gibi)

abbrev bandwidth_expr : Bounds → Expr
bandwidth_expr b =
    conj (attribute_present "memoryBandwidthGBs")
      (attribute_at_least "memoryBandwidthGBs" (pos b.min_bandwidth_gbs))

abbrev healthy_expr : Expr
healthy_expr = conj (attribute_present "healthy") (attribute_holds "healthy")

abbrev compute_expr : ℤ → Expr
compute_expr c = conj (attribute_present "computeTFLOPS") (attribute_at_least "computeTFLOPS" c)

-- The selector of a claim, clause by clause.
abbrev pub fit_expr : Bounds → String → ℤ → Expr
fit_expr b class min_compute =
    let base =
      if class == cpu_class
      then conj (memory_expr b) healthy_expr
      else conj (memory_expr b) (conj (bandwidth_expr b) healthy_expr) in
    if ltb64 (pos 0) min_compute then conj base (compute_expr min_compute) else base

-- FitCEL prints exactly this expression.
pub fit_cel-render :
    (b : Bounds) (class : String) (c : ℤ)
    → fit_cel b class c ≡ render driver_domain (fit_expr b class c)
unfolding fit_cel render decimal64
fit_cel-render b class c = elim (Bool-cases (class == cpu_class)) [
  | inl cpu ↦ elim (Bool-cases (ltb64 (pos 0) c)) [
    | inl floor ↦ rw (cpu, floor) (simp append_assoc)
    | inr unset ↦ rw (cpu, unset) (simp append_assoc)
  ]
  | inr other ↦ elim (Bool-cases (ltb64 (pos 0) c)) [
    | inl floor ↦ rw (other, floor) (simp append_assoc)
    | inr unset ↦ rw (other, unset) (simp append_assoc)
  ]
]
