-- ===== src/ModelClaim/Controller/ModelRef.antt =====
-- The pattern of model references, and the resolver's own guard against flags.
use Prim.Native.Char.{code}
use llmfit_dra.Prelude.{
  String, ℕ, Bool, true, false, ◌||◌, ◌&&◌, if◌then◌else◌, leb, eqb, ◌≡◌, arith,
}

alphanumeric : ℕ → Bool
alphanumeric c = leb b'A' c && leb c b'Z' || leb b'a' c && leb c b'z' || leb b'0' c && leb c b'9'

ref_char : ℕ → Bool
ref_char c = alphanumeric c || eqb c b'.' || eqb c b'_' || eqb c b'-'

-- Where the matcher stands: at the first character of a part or within it, before or after the one
-- slash that is allowed.
pub data RefState : Type 0 where
  org_start org_rest name_start name_rest : RefState

ref_step : RefState → ℕ → Bool × RefState
ref_step org_start c = (alphanumeric c, org_rest)
ref_step org_rest c = if eqb c b'/' then (true, name_start) else (ref_char c, org_rest)
ref_step name_start c = (alphanumeric c, name_rest)
ref_step name_rest c = (ref_char c, name_rest)

ref_accepts : RefState → Bool
ref_accepts org_rest = true
ref_accepts name_rest = true
ref_accepts _ = false

ref_matches : RefState → String → Bool
ref_matches st String.[] = ref_accepts st
ref_matches st (String.◌∷◌ c s) = (ref_step st (code c)).0 && ref_matches (ref_step st (code c)).1 s

-- `modelRefPattern.MatchString`
unfoldable pub valid_model_ref : String → Bool
unfolding alphanumeric ref_char ref_step ref_accepts ref_matches
valid_model_ref model = ref_matches org_start model

-- The first test of `ExecResolver.Resolve`: `model == "" || model[0] == '-'`.
unfoldable pub reads_as_flag : String → Bool
reads_as_flag String.[] = true
reads_as_flag (String.◌∷◌ c s) = eqb (code c) b'-'

-- A model reference that passes the controller's validation is never refused by the resolver's
-- guard: it is not empty, and does not begin with a dash.
pub valid_model_ref-no_flag :
    (model : String) → valid_model_ref model ≡ true → reads_as_flag model ≡ false
unfolding valid_model_ref reads_as_flag
valid_model_ref-no_flag String.[] h = ground arith
valid_model_ref-no_flag (String.◌∷◌ c s) h = ground arith
