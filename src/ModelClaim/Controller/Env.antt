-- ===== src/ModelClaim/Controller/Env.antt =====
-- What is not under the controller's control during one pass: the answers of the API server, of the
-- informer caches, of the resolver, the clock, and the library functions on conditions.
use llmfit_dra.Prelude.{String, ℕ, Option, some, List, Bool, ◌≡◌, ◌≢◌}
use llmfit_dra.Prelude.Int64.{ℤ}
use llmfit_dra.Index.{NvidiaBoards}
use llmfit_dra.Resource.{ResourceSlice, ResourceClaim}
use llmfit_dra.ModelClaim.Bounds.{Bounds}
use llmfit_dra.ModelClaim.Satisfiable.Score.{Float}
use llmfit_dra.ModelClaim.Types.{ModelClaim, Template, Condition}
use llmfit_dra.ModelClaim.Controller.Act.{Reply}

pub data GetAnswer : Type 0 where
  not_found : GetAnswer
  found : Template → GetAnswer
  get_failed : String → GetAnswer

pub data UpdateAnswer : Type 0 where
  updated : UpdateAnswer
  invalid : UpdateAnswer
  update_failed : String → UpdateAnswer

-- `undecodable` is a failure of `fromUnstructured`.
pub data ClaimAnswer : Type 0 where
  claim_missing : ClaimAnswer
  claim_failed : String → ClaimAnswer
  undecodable : String → ClaimAnswer
  claim_found : ModelClaim → ClaimAnswer

pub data StatusAnswer : Type 0 where
  status_ok : StatusAnswer
  conflict : StatusAnswer
  status_failed : String → StatusAnswer

-- A pass makes each of these calls at most once.
pub record Env : Type 1 where
  pub now : ℕ
  pub resolver : String → String → String → ℤ → Reply Bounds
  pub get_template : GetAnswer
  -- `none` is success.
  pub create_template : Option String
  pub update_template : UpdateAnswer
  pub delete_template : Option String
  pub get_claim : ClaimAnswer
  -- A failure of ToUnstructured, or the answer of the API server.
  pub encode_error : Option String
  pub update_status : StatusAnswer
  pub is_controlled_by : Template → ModelClaim → Bool
  pub slices : List ResourceSlice
  pub claims : List ResourceClaim
  pub boards : NvidiaBoards
  pub float : Float
  -- `%q`
  pub quote : String → String
  -- `apimeta.SetStatusCondition` and `apimeta.FindStatusCondition`.
  pub set_status_condition : List Condition → Condition → List Condition
  pub find_status_condition : List Condition → String → Option Condition

-- The documented behaviour of the two functions on conditions: the condition of the given type
-- becomes the given one, and the others stay.
pub record ConditionLaws (env : Env) : Type 0 where
  pub find_set_self :
      (cs : List Condition) (c : Condition)
      → env.find_status_condition (env.set_status_condition cs c) c.kind ≡ some c
  pub find_set_ne :
      (cs : List Condition) (c : Condition) (kind : String)
      → c.kind ≢ kind
      → env.find_status_condition (env.set_status_condition cs c) kind
        ≡ env.find_status_condition cs kind
