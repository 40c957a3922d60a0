-- ===== src/ModelClaim/Controller/Writes/Pass.antt =====
-- The template writes of a whole pass of `reconcile`, and when the pass is tried again.
use llmfit_dra.Prelude.{
  String, ℕ, Option, none, some, List, [], Bool, true, false, ◌≡◌, refl, ◌∙◌, ap, if◌then◌else◌,
}
use llmfit_dra.Prelude.Maps.{lookup}
use llmfit_dra.Prelude.Int64.{pos}
use mathlib.Core.List
use mathlib.Core.List.{append-nil, append_assoc}
use llmfit_dra.ModelClaim.Bounds.{Bounds}
use llmfit_dra.ModelClaim.Types.{ModelClaim}
use llmfit_dra.ModelClaim.Controller.Act.{
  Act, Call, Controller, Reply, ok, err, and_then, ◌>>=◌, record_call, template_got,
  resolver_called,
}
use llmfit_dra.ModelClaim.Controller.Env.{Env}
use llmfit_dra.ModelClaim.Controller.ModelRef.{valid_model_ref}
use llmfit_dra.ModelClaim.Controller.Resolve.{resolve, resolve_key, fresh_bounds, keep_answer}
use llmfit_dra.ModelClaim.Controller.Report.{reject_model}
use llmfit_dra.ModelClaim.Controller.Sync.{sync_template}
use llmfit_dra.ModelClaim.Controller.Reconcile.{
  or_else, after_sync, desired_template, after_resolve, resolve_claim, reconcile_claim,
}
use llmfit_dra.ModelClaim.Controller.Writes.{writes, is_template_write, quiet_call}
use llmfit_dra.ModelClaim.Controller.Writes.Quiet.{
  reject_model-IsQuiet, report_unresolved-IsQuiet, after_sync-IsQuiet,
}
use llmfit_dra.ModelClaim.Controller.Writes.Planned.{
  planned, Writes, sync_template-Writes, quiet-Writes, then-Writes,
}

-- The resolved bounds of a claim: an entry of the cache that has not expired, or the resolver's
-- answer.
abbrev pub claim_key : ModelClaim → String
claim_key mc =
    resolve_key mc.spec.model (or_else "20" mc.spec.min_tps) mc.spec.quant
      (or_else (pos 0) mc.spec.efficiency_pct)

abbrev pub ask : Env → ModelClaim → Reply Bounds
ask env mc =
    env.resolver mc.spec.model (or_else "20" mc.spec.min_tps) mc.spec.quant
      (or_else (pos 0) mc.spec.efficiency_pct)

abbrev pub bounds_answer : Env → ModelClaim → Controller → Reply Bounds
bounds_answer env mc c = elim (fresh_bounds env.now (lookup (claim_key mc) c.resolve_cache)) [
  | some b ↦ ok b
  | none ↦ ask env mc
]

abbrev pub planned_after : Env → String → ModelClaim → Reply Bounds → List Call
planned_after env name mc (err e) = []
planned_after env name mc (ok b) = planned env name mc (desired_template env mc b) env.get_template

after_resolve-Writes :
    (env : Env) (name : String) (mc : ModelClaim) (r : Reply Bounds)
    → Writes (after_resolve env name mc r) (planned_after env name mc r)
unfolding after_resolve Writes is_template_write
after_resolve-Writes env name mc (err e) = quiet-Writes _ (report_unresolved-IsQuiet env name mc e)
after_resolve-Writes env name mc (ok b) = λ c.
    then-Writes (sync_template env name mc b (desired_template env mc b) env.get_template)
      (after_sync env name mc b) _
      (sync_template-Writes env name mc b (desired_template env mc b) env.get_template)
      (after_sync-IsQuiet env name mc b) (record_call (template_got name) c)
    ∙ ap (λ l. List.◌++◌ l (planned_after env name mc (ok b)))
        (quiet_call (template_got name) c refl)

keep_answer-writes :
    (now : ℕ) (key : String) (r : Reply Bounds) (c : Controller)
    → writes (keep_answer now key r c) ≡ writes c
unfolding keep_answer writes
keep_answer-writes now key (err e) c = refl
keep_answer-writes now key (ok b) c = refl

-- `resolve`, from the look-up in the cache on.
abbrev pub resolved :
    ℕ
    → String
    → String
    → Reply Bounds
    → Controller
    → Option Bounds
    → Reply (Reply Bounds) × Controller
resolved now key model answer c o = elim o [
  | some b ↦ (ok (ok b), c)
  | none ↦ (ok answer, keep_answer now key answer (record_call (resolver_called model) c))
]

resolved-writes :
    (env : Env) (name : String) (mc : ModelClaim) (c : Controller) (key : String) (r : Reply Bounds)
    (o : Option Bounds)
    → writes
        (and_then
          (resolved env.now key mc.spec.model r c o).0
          (after_resolve env name mc)
          (resolved env.now key mc.spec.model r c o).1).1
      ≡ List.◌++◌ (writes c) (planned_after env name mc (elim o [ some b ↦ ok b | none ↦ r ]))
unfolding Writes is_template_write
resolved-writes env name mc c key r (some b) = after_resolve-Writes env name mc (ok b) c
resolved-writes env name mc c key r none =
    after_resolve-Writes env name mc r
      (keep_answer env.now key r (record_call (resolver_called mc.spec.model) c))
    ∙ ap (λ l. List.◌++◌ l (planned_after env name mc r))
        (keep_answer-writes env.now key r _ ∙ quiet_call (resolver_called mc.spec.model) c refl)

choose-writes :
    {A : Type 0} (b : Bool) (m n : Act A) (v w : List Call) (c : Controller)
    → writes (m c).1 ≡ List.◌++◌ (writes c) v
    → writes (n c).1 ≡ List.◌++◌ (writes c) w
    → writes ((if b then m else n) c).1 ≡ List.◌++◌ (writes c) (if b then v else w)
choose-writes true m n v w c h k = h
choose-writes false m n v w c h k = k

-- A pass over a claim writes exactly these templates, in this order, and no other: none when the
-- model reference is invalid or the bounds cannot be resolved, and else what the state of the
-- template calls for.
pub reconcile_claim-writes :
    (env : Env) (name : String) (mc : ModelClaim) (c : Controller)
    → writes (reconcile_claim env name mc c).1
      ≡ List.◌++◌ (writes c) (
          if valid_model_ref mc.spec.model
          then planned_after env name mc (bounds_answer env mc c)
          else [])
unfolding reconcile_claim resolve_claim resolve Writes
reconcile_claim-writes env name mc c =
    choose-writes (valid_model_ref mc.spec.model)
      (resolve_claim env mc >>= after_resolve env name mc) (reject_model env name mc) _ _ c
      (resolved-writes env name mc c (claim_key mc) (ask env mc)
        (fresh_bounds env.now (lookup (claim_key mc) c.resolve_cache)))
      (quiet-Writes _ (reject_model-IsQuiet env name mc) c)
