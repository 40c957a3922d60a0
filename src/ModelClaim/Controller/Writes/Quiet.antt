-- ===== src/ModelClaim/Controller/Writes/Quiet.antt =====
-- The actions of a pass that write no template.
use llmfit_dra.Prelude.{String, Option, none, some, Bool, true, false, refl, if◌then◌else◌}
use llmfit_dra.ModelClaim.Bounds.{Bounds}
use llmfit_dra.ModelClaim.Types.{ModelClaim}
use llmfit_dra.ModelClaim.Controller.Act.{Act, pure, fail}
use llmfit_dra.ModelClaim.Controller.Env.{Env}
use llmfit_dra.ModelClaim.Controller.Report.{report_unresolved, reject_model, report_conflict}
use llmfit_dra.ModelClaim.Controller.Sync.{Synced, in_sync, foreign, succeed_or, after_create}
use llmfit_dra.ModelClaim.Controller.Verdict.{report_satisfiable, report_transition}
use llmfit_dra.ModelClaim.Controller.Reconcile.{after_sync}
use llmfit_dra.ModelClaim.Controller.Writes.{
  IsQuiet, bind-IsQuiet, event-IsQuiet, update_status-IsQuiet,
}

pub succeed_or-IsQuiet : (what : String) (o : Option String) → IsQuiet (succeed_or what o)
unfolding IsQuiet succeed_or
succeed_or-IsQuiet what none c = refl
succeed_or-IsQuiet what (some e) c = refl

pub pure-IsQuiet : {A : Type 0} (a : A) → IsQuiet (pure a)
unfolding IsQuiet
pure-IsQuiet a c = refl

pub fail-IsQuiet : (A : Type 0) (e : String) → IsQuiet (fail {A = A} e)
unfolding IsQuiet
fail-IsQuiet A e c = refl

pub reject_model-IsQuiet :
    (env : Env) (name : String) (mc : ModelClaim) → IsQuiet (reject_model env name mc)
unfolding reject_model
reject_model-IsQuiet env name mc =
    bind-IsQuiet _ _ (event-IsQuiet mc _ _ _) (λ _. update_status-IsQuiet env name _)

pub report_unresolved-IsQuiet :
    (env : Env) (name : String) (mc : ModelClaim) (e : String)
    → IsQuiet (report_unresolved env name mc e)
unfolding report_unresolved
report_unresolved-IsQuiet env name mc e =
    bind-IsQuiet _ _ (event-IsQuiet mc _ _ _)
      (λ _. bind-IsQuiet _ _ (update_status-IsQuiet env name _) (λ _. fail-IsQuiet (Unit {0}) _))

pub report_conflict-IsQuiet :
    (env : Env) (name : String) (mc : ModelClaim) → IsQuiet (report_conflict env name mc)
unfolding report_conflict
report_conflict-IsQuiet env name mc =
    bind-IsQuiet _ _ (event-IsQuiet mc _ _ _) (λ _. update_status-IsQuiet env name _)

pub if-IsQuiet :
    {A : Type 0} (b : Bool) (m n : Act A) → IsQuiet m → IsQuiet n → IsQuiet (if b then m else n)
if-IsQuiet true m n h k = h
if-IsQuiet false m n h k = k

pub report_satisfiable-IsQuiet :
    (env : Env) (name : String) (mc : ModelClaim) (b : Bounds)
    → IsQuiet (report_satisfiable env name mc b)
unfolding report_satisfiable report_transition
report_satisfiable-IsQuiet env name mc b =
    bind-IsQuiet _ _ (if-IsQuiet _ _ _ (pure-IsQuiet tt) (event-IsQuiet mc _ _ _))
      (λ _. update_status-IsQuiet env name _)

pub after_sync-IsQuiet :
    (env : Env) (name : String) (mc : ModelClaim) (b : Bounds) (s : Synced)
    → IsQuiet (after_sync env name mc b s)
unfolding after_sync
after_sync-IsQuiet env name mc b foreign = pure-IsQuiet tt
after_sync-IsQuiet env name mc b in_sync = report_satisfiable-IsQuiet env name mc b

pub after_create-IsQuiet :
    (name : String) (mc : ModelClaim) (b : Bounds) (o : Option String)
    → IsQuiet (after_create name mc b o)
unfolding after_create
after_create-IsQuiet name mc b o =
    bind-IsQuiet _ _ (succeed_or-IsQuiet _ o)
      (λ _. bind-IsQuiet _ _ (event-IsQuiet mc _ _ _) (λ _. pure-IsQuiet in_sync))
