-- ===== src/ModelClaim/Controller/Conditions.antt =====
-- The conditions that a pass writes.
use llmfit_dra.Prelude.{String, ◌≡◌, ◌≢◌, some, arith, eq_iff, ap, ◌∙◌, ◌↔◌, ◌<◌, refl}
use mathlib.Core.Option
use llmfit_dra.ModelClaim.Types.{
  ModelClaim, ModelClaimStatus, ConditionStatus, condition_false, condition_unknown,
  condition_resolved, condition_satisfiable, condition_true, reason_no_candidates,
}
use llmfit_dra.Prelude.Int64.{ℤ}
use llmfit_dra.ModelClaim.Bounds.{Bounds}
use llmfit_dra.ModelClaim.Satisfiable.Tally.{Candidates}
use llmfit_dra.ModelClaim.Controller.Env.{Env, ConditionLaws}
use llmfit_dra.ModelClaim.Controller.Status.{set_condition}
use llmfit_dra.ModelClaim.Controller.Report.{mark_unresolved}
use llmfit_dra.ModelClaim.Controller.Verdict.{mark_resolved, satisfiable_condition}

kinds_differ : condition_satisfiable ≢ condition_resolved
kinds_differ = ground (arith, eq_iff condition_satisfiable condition_resolved)

-- The verdict is True exactly when some device meets the bounds, whether or not one is free; else it
-- is False and its message is the explanation of the shortfall.
pub satisfiable_condition-devices :
    (c : Candidates)
    → (((satisfiable_condition c).0 ≡ condition_true) ↔ (0 < c.devices))
      × ((satisfiable_condition c).0 ≢ condition_true
          → satisfiable_condition c ≡ (condition_false, reason_no_candidates, c.shortfall))
unfolding satisfiable_condition
satisfiable_condition-devices c = ((λ h. ground arith, λ h. ground arith), λ h. ground arith)

module _ (env : Env) (laws : ConditionLaws env) (mc : ModelClaim) (s : ModelClaimStatus) where
  -- A terminal branch of the pass never leaves an old verdict standing: Resolved is False with the
  -- reason and the message, Satisfiable is Unknown with the same reason, both for this generation.
  pub mark_unresolved_conditions :
      (reason m n : String)
      → (env.find_status_condition
            (mark_unresolved env mc reason m n s).conditions
            condition_resolved
          ≡ some (record {
            kind = condition_resolved;
            status = condition_false;
            reason = reason;
            message = m;
            observed_generation = mc.generation;
          }))
        × (env.find_status_condition
              (mark_unresolved env mc reason m n s).conditions
              condition_satisfiable
            ≡ some (record {
              kind = condition_satisfiable;
              status = condition_unknown;
              reason = reason;
              message = n;
              observed_generation = mc.generation;
            }))
  unfolding mark_unresolved set_condition
  mark_unresolved_conditions reason m n = (
    laws.find_set_ne _ _ condition_resolved kinds_differ ∙ laws.find_set_self _ _,
    laws.find_set_self _ _,
  )

  -- The last status write of a pass that resolved the bounds: Resolved is True, Satisfiable carries
  -- the verdict, both for this generation, and the status names the template and the counts.
  pub mark_resolved_conditions :
      (name : String) (b : Bounds) (cands : Candidates)
      → (Option.map {B = ConditionStatus × ℤ}
            (λ c. (c.status, c.observed_generation))
            (env.find_status_condition
              (mark_resolved env name mc b cands (satisfiable_condition cands) s).conditions
              condition_resolved)
          ≡ some (condition_true, mc.generation))
        × (env.find_status_condition
              (mark_resolved env name mc b cands (satisfiable_condition cands) s).conditions
              condition_satisfiable
            ≡ some (record {
              kind = condition_satisfiable;
              status = (satisfiable_condition cands).0;
              reason = (satisfiable_condition cands).1;
              message = (satisfiable_condition cands).2;
              observed_generation = mc.generation;
            }))
        × ((mark_resolved env name mc b cands (satisfiable_condition cands) s).template_ref
            ≡ some name)
        × ((mark_resolved env name mc b cands (satisfiable_condition cands) s).observed_generation
            ≡ mc.generation)
  unfolding mark_resolved set_condition
  mark_resolved_conditions name b cands = (
    ap (Option.map {B = ConditionStatus × ℤ} (λ c. (c.status, c.observed_generation)))
        (laws.find_set_ne _ _ condition_resolved kinds_differ ∙ laws.find_set_self _ _),
    laws.find_set_self _ _,
    refl,
    refl,
  )
