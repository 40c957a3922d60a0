-- ===== src/ModelClaim/Satisfiable/Nvidia/Shortfall.antt =====
-- The shortfall message of EvaluateNvidiaSlices.
use Prim.Native.String.{◌++◌}
use text.Mathlib.TextLemmas.{append-eq-nil_iff}
use llmfit_dra.Prelude.{
  String, ℕ, zero, suc, List, [], ◌∷◌, Bool, ◌<◌, ◌≡◌, ◌≢◌, ◌↔◌, arith, eq_iff,
}
use llmfit_dra.Prelude.Maps.{GoMap}
use llmfit_dra.Prelude.Int64.{ℤ}
use llmfit_dra.Index.{NvidiaBoards}
use llmfit_dra.Resource.{ResourceSlice}
use llmfit_dra.ModelClaim.Bounds.{Bounds}
use llmfit_dra.ModelClaim.Satisfiable.Score.{Float}
use llmfit_dra.ModelClaim.Satisfiable.Nvidia.Scan.{nvidia_shortfall, evaluate_nvidia_slices}

abbrev none_published : String
none_published = "no gpu.nvidia.com devices published — is the NVIDIA DRA driver installed?"

abbrev unknown_text : String
unknown_text = "unknown NVIDIA board(s) "

unknown-ne-empty : (rest : String) → unknown_text ++ rest ≢ ""
unknown-ne-empty rest e =
    let e' : unknown_text ≡ "" = (append-eq-nil_iff.0 e).0 in ground (arith, eq_iff unknown_text "")

nvidia_shortfall-empty_iff :
    (quote : String → String) (boards : NvidiaBoards) (n : ℕ) (best : String) (unknown : GoMap Bool)
    → (nvidia_shortfall quote boards n best unknown ≡ "") ↔ (0 < n)
unfolding nvidia_shortfall
nvidia_shortfall-empty_iff quote boards n best [] =
    ground (arith, eq_iff best "", eq_iff none_published "")
nvidia_shortfall-empty_iff quote boards zero best (e ∷ r) =
    (λ h. absurd (unknown-ne-empty _ h), λ h. ground arith)
nvidia_shortfall-empty_iff quote boards (suc n) best (e ∷ r) = (λ _. omega arith, λ _. ground arith)

-- The shortfall is empty exactly when some device satisfies the bounds.
pub evaluate_nvidia_slices_explains :
    (fl : Float) (quote : String → String) (slices : List ResourceSlice) (allocated : GoMap String)
    (b : Bounds) (class : String) (floor : ℤ) (boards : NvidiaBoards)
    → ((evaluate_nvidia_slices fl quote slices allocated b class floor boards).shortfall ≡ "")
      ↔ (0 < (evaluate_nvidia_slices fl quote slices allocated b class floor boards).devices)
unfolding evaluate_nvidia_slices
evaluate_nvidia_slices_explains fl quote slices allocated b class floor boards =
    nvidia_shortfall-empty_iff quote boards _ _ _
