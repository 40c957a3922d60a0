-- ===== src/ModelClaim/Resolver.antt =====
-- ExecResolver of resolver.go: the command line and the reading of its output. The run of the binary
-- and the decoding of its JSON are the input.
use mathlib.Core.List.{◌++◌}
use llmfit_dra.Prelude.{
  String, ◌≡◌, Option, none, some, List, [], ◌∷◌, Bool, false, ◌&&◌, ◌==◌, if◌then◌else◌, eqb,
  arith,
}
use llmfit_dra.Prelude.Int64.{ℤ, pos, ltb64, decimal64}
use llmfit_dra.ModelClaim.Bounds.{Bounds}
use llmfit_dra.ModelClaim.Controller.ModelRef.{reads_as_flag}

-- The arguments; `min_tps` is the number as `FormatFloat` prints it.
unfoldable pub claim_args : String → String → String → ℤ → List String
claim_args model min_tps quant efficiency_pct =
    ("--json" ∷ "claim" ∷ model ∷ "--min-tps" ∷ min_tps ∷ [])
    ++ (if quant == "" then [] else "--quant" ∷ quant ∷ [])
    ++ (if ltb64 (pos 0) efficiency_pct then "--efficiency" ∷ decimal64 efficiency_pct ∷ [] else [])

unfoldable pub is_empty : Bounds → Bool
is_empty b = eqb b.memory_gi 0 && eqb b.min_bandwidth_gbs 0

-- The reading of the output; `none` is an error.
unfoldable pub read_bounds : Option Bounds → Option Bounds
unfolding is_empty
read_bounds none = none
read_bounds (some b) = if is_empty b then none else some b

module _ (run : List String → Option String) (decode : String → Option Bounds) where
  -- `Resolve`; `none` is its error.
  unfoldable pub exec_resolve : String → String → String → ℤ → Option Bounds
  unfolding claim_args read_bounds
  exec_resolve model min_tps quant efficiency_pct =
      if reads_as_flag model
      then none
      else (elim (run (claim_args model min_tps quant efficiency_pct)) [
        | none ↦ none
        | some out ↦ read_bounds (decode out)
      ])

  read_bounds-nonempty :
      (o : Option Bounds) (b : Bounds) → read_bounds o ≡ some b → is_empty b ≡ false
  unfolding read_bounds
  read_bounds-nonempty none b h = absurd (ground arith)
  read_bounds-nonempty (some c) b h = ground arith

  ran-nonempty :
      (o : Option String) (b : Bounds)
      → (elim o [ none ↦ none | some out ↦ read_bounds (decode out) ]) ≡ some b
      → is_empty b ≡ false
  ran-nonempty none b h = absurd (ground arith)
  ran-nonempty (some out) b h = read_bounds-nonempty (decode out) b h

  -- Bounds that are resolved are not empty, and the model reference that they are for does not
  -- read as a flag.
  pub exec_resolve-nonempty :
      (model min_tps quant : String) (efficiency_pct : ℤ) (b : Bounds)
      → exec_resolve model min_tps quant efficiency_pct ≡ some b
      → reads_as_flag model ≡ false × is_empty b ≡ false
  unfolding exec_resolve
  exec_resolve-nonempty model min_tps quant efficiency_pct b h =
      ground (arith, ran-nonempty (run (claim_args model min_tps quant efficiency_pct)) b)
