-- ===== src/ModelClaim/Controller/Retry.antt =====
-- `processNext` on a claim whose bounds cannot be resolved, or whose name another template has.
use llmfit_dra.Prelude.{
  String, Option, none, some, [], ◌≡◌, refl, arith, ◌∙◌, ap, true, false, Bool, if◌then◌else◌,
}
use mathlib.Core.List
use mathlib.Core.List.{append-nil}
use llmfit_dra.Prelude.Maps.{lookup}
use llmfit_dra.ModelClaim.Bounds.{Bounds}
use llmfit_dra.ModelClaim.Types.{ModelClaim, Template, reason_resolve_failed}
use llmfit_dra.ModelClaim.Controller.Act.{Act, Controller, Reply, ok, err, and_then, ◌>>=◌, fail}
use llmfit_dra.ModelClaim.Controller.Env.{Env, found}
use llmfit_dra.ModelClaim.Controller.Events.{event}
use llmfit_dra.ModelClaim.Controller.Status.{update_status}
use llmfit_dra.ModelClaim.Controller.ModelRef.{valid_model_ref}
use llmfit_dra.ModelClaim.Controller.Report.{report_unresolved}
use llmfit_dra.ModelClaim.Controller.Resolve.{resolve, fresh_bounds}
use llmfit_dra.ModelClaim.Controller.Reconcile.{
  after_resolve, resolve_claim, reconcile_claim, reconcile, cached, queue_call, add_rate_limited,
  process_next,
}
use llmfit_dra.ModelClaim.Controller.Writes.{writes}
use llmfit_dra.ModelClaim.Controller.Writes.Pass.{
  bounds_answer, claim_key, ask, resolved, planned_after, reconcile_claim-writes,
}

abbrev is_err : {A : Type 0} → Reply A → Bool
is_err (ok a) = false
is_err (err e) = true

-- The pass ends with an error, whatever the state.
unfoldable Fails : {A : Type 0} → Act A → Type 0
Fails m = (c : Controller) → is_err (m c).0 ≡ true

and_then-Fails :
    {A B : Type 0} (r : Reply A) (f : A → Act B) → ((a : A) → Fails (f a)) → Fails (and_then r f)
unfolding Fails
and_then-Fails (ok a) f h c = h a c
and_then-Fails (err e) f h c = refl

bind-Fails : {A B : Type 0} (m : Act A) (f : A → Act B) → ((a : A) → Fails (f a)) → Fails (m >>= f)
unfolding Fails
bind-Fails m f h c = and_then-Fails (m c).0 f h (m c).1

fail-Fails : (A : Type 0) (e : String) → Fails (fail {A = A} e)
unfolding Fails
fail-Fails A e c = refl

report_unresolved-Fails :
    (env : Env) (name : String) (mc : ModelClaim) (e : String)
    → Fails (report_unresolved env name mc e)
unfolding report_unresolved
report_unresolved-Fails env name mc e =
    bind-Fails (event mc "Warning" reason_resolve_failed e) _
      (λ _. bind-Fails (update_status env name _) _ (λ _. fail-Fails (Unit {0}) _))

resolved-fails :
    (env : Env) (name : String) (mc : ModelClaim) (c : Controller) (key : String) (r : Reply Bounds)
    (o : Option Bounds)
    → is_err (elim o [ some b ↦ ok b | none ↦ r ]) ≡ true
    → is_err
        (and_then
          (resolved env.now key mc.spec.model r c o).0
          (after_resolve env name mc)
          (resolved env.now key mc.spec.model r c o).1).0
      ≡ true
unfolding after_resolve Fails
resolved-fails env name mc c key r (some b) h = ground arith
resolved-fails env name mc c key (ok b) none h = ground arith
resolved-fails env name mc c key (err e) none h = report_unresolved-Fails env name mc e _

when :
    {A : Type 0} (b : Bool) (m n : Act A) (c : Controller)
    → b ≡ true
    → is_err (m c).0 ≡ true
    → is_err ((if b then m else n) c).0 ≡ true
when true m n c h k = k
when false m n c h k = ground arith

queue_call_err : (r : Reply (Unit {0})) → is_err r ≡ true → queue_call r ≡ add_rate_limited
queue_call_err (ok a) h = ground arith
queue_call_err (err e) h = refl

-- A claim with a valid model reference whose bounds cannot be resolved is put back on the queue with
-- the rate limit, whatever becomes of its event and of its status write, and no template is written.
pub unresolved_retries :
    (env : Env) (name : String) (mc : ModelClaim) (c : Controller) (e : String)
    → valid_model_ref mc.spec.model ≡ true
    → bounds_answer env mc c ≡ err e
    → ((process_next env (cached name mc) c).0 ≡ ok add_rate_limited)
      × (writes (process_next env (cached name mc) c).1 ≡ writes c)
unfolding process_next reconcile reconcile_claim resolve_claim resolve
unresolved_retries env name mc c e valid unresolved = (
  ap ok (
      queue_call_err _ (
        when _ _ _ c valid (
          resolved-fails env name mc c (claim_key mc) (ask env mc)
            (fresh_bounds env.now (lookup (claim_key mc) c.resolve_cache))
            (ap is_err unresolved)))),
  reconcile_claim-writes env name mc c
      ∙ (ap
            (λ b.
              List.◌++◌ (writes c)
                (if b then planned_after env name mc (bounds_answer env mc c) else []))
            valid
          ∙ (ap (λ r. List.◌++◌ (writes c) (planned_after env name mc r)) unresolved
              ∙ append-nil (writes c))),
)

foreign_plan :
    (env : Env) (name : String) (mc : ModelClaim) (live : Template) (valid : Bool)
    (r : Reply Bounds)
    → env.get_template ≡ found live
    → env.is_controlled_by live mc ≡ false
    → (if valid then planned_after env name mc r else []) ≡ []
foreign_plan env name mc live false r h k = refl
foreign_plan env name mc live true (err e) h k = refl
foreign_plan env name mc live true (ok b) h k = rw (h, k) refl

-- A template that the claim does not control is never written.
pub foreign_untouched :
    (env : Env) (name : String) (mc : ModelClaim) (c : Controller) (live : Template)
    → env.get_template ≡ found live
    → env.is_controlled_by live mc ≡ false
    → writes (process_next env (cached name mc) c).1 ≡ writes c
unfolding process_next reconcile
foreign_untouched env name mc c live found_live not_ours =
    reconcile_claim-writes env name mc c
    ∙ (ap (List.◌++◌ (writes c)) (
          foreign_plan env name mc live (valid_model_ref mc.spec.model) (bounds_answer env mc c)
            found_live not_ours)
        ∙ append-nil (writes c))
