-- ===== src/ModelClaim/Controller/Status.antt =====
-- `updateStatus`, `setCondition` and `conditionReason`.
use llmfit_dra.Prelude.{String, Option, none, some}
use llmfit_dra.Prelude.Int64.{ℤ}
use llmfit_dra.ModelClaim.Types.{ModelClaim, ModelClaimStatus, ConditionStatus}
use llmfit_dra.ModelClaim.Controller.Act.{
  Act, pure, fail, call_for, status_got, status_updated, ◌>>=◌,
}
use llmfit_dra.ModelClaim.Controller.Env.{
  Env, claim_missing, claim_failed, undecodable, claim_found, ClaimAnswer, StatusAnswer, status_ok,
  conflict, status_failed,
}

unfoldable pub set_condition :
    Env → ℤ → String → ConditionStatus → String → String → ModelClaimStatus → ModelClaimStatus
set_condition env generation kind status reason message s = record s {
  conditions = env.set_status_condition s.conditions (record {
    kind = kind;
    status = status;
    reason = reason;
    message = message;
    observed_generation = generation;
  });
}

unfoldable pub condition_reason : Env → ModelClaim → String → String
condition_reason env mc kind = elim (env.find_status_condition mc.status.conditions kind) [
  | none ↦ ""
  | some c ↦ c.reason
]

unfoldable pub status_reply : StatusAnswer → Act (Unit {0})
status_reply status_ok = pure tt
status_reply conflict = pure tt
status_reply (status_failed e) = fail e

unfoldable pub write_status : Env → Option String → ModelClaimStatus → Act (Unit {0})
write_status env (some e) s = fail e
write_status env none s = do
  answer ← call_for (status_updated s) env.update_status
  status_reply answer

unfoldable pub with_claim :
    Env → (ModelClaimStatus → ModelClaimStatus) → ClaimAnswer → Act (Unit {0})
with_claim env mutate claim_missing = pure tt
with_claim env mutate (claim_failed e) = fail e
with_claim env mutate (undecodable e) = fail e
with_claim env mutate (claim_found mc) = write_status env env.encode_error (mutate mc.status)

unfoldable pub update_status : Env → String → (ModelClaimStatus → ModelClaimStatus) → Act (Unit {0})
unfolding status_reply write_status with_claim
update_status env name mutate = do
  answer ← call_for (status_got name) env.get_claim
  with_claim env mutate answer
