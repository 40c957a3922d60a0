-- ===== src/ModelClaim/Controller/Memory/Passes.antt =====
-- The passes of the controller and the memory it keeps between them.
use llmfit_dra.Prelude.{String, Option, none, some}
use llmfit_dra.ModelClaim.Bounds.{Bounds}
use llmfit_dra.ModelClaim.Types.{ModelClaim, Template}
use llmfit_dra.ModelClaim.Template.{template_needs_update}
use llmfit_dra.ModelClaim.Controller.Act.{
  Controller, Reply, ok, err, template_created, template_updated, template_got, ◌>>=◌,
}
use llmfit_dra.ModelClaim.Controller.Env.{
  Env, GetAnswer, not_found, found, get_failed, UpdateAnswer, updated, invalid, update_failed,
}
use llmfit_dra.ModelClaim.Controller.Report.{report_unresolved, reject_model, report_conflict}
use llmfit_dra.ModelClaim.Controller.Sync.{
  Synced, in_sync, foreign, succeed_or, after_create, create_missing, after_delete, after_update,
  finish_update, update_drifted, apply_desired, sync_template,
}
use llmfit_dra.ModelClaim.Controller.Verdict.{report_satisfiable, report_transition}
use llmfit_dra.ModelClaim.Controller.Reconcile.{
  after_sync, after_resolve, desired_template, resolve_claim, reconcile_claim, CacheAnswer, bad_key,
  store_failed, absent, malformed, cached, reconcile, process_next,
}
use llmfit_dra.ModelClaim.Controller.Run.{
  WorkQueue, Running, notified, taken, pass_done, RunReachable, here, later, notification, get_key,
  pass_ended,
}
use llmfit_dra.ModelClaim.Controller.Memory.{
  Bounding, IsBounded, bind-Bounding, call_for-Bounding, event-Bounding, fail-Bounding, if-Bounding,
  pure-Bounding, resolve-Bounding, update_status-Bounding,
}

-- An event, and the status after it.
report_conflict-Bounding :
    (env : Env) (name : String) (mc : ModelClaim) → Bounding (report_conflict env name mc)
unfolding report_conflict
report_conflict-Bounding env name mc =
    bind-Bounding _ _ (event-Bounding mc _ _ _) (λ _. update_status-Bounding env name _)

reject_model-Bounding :
    (env : Env) (name : String) (mc : ModelClaim) → Bounding (reject_model env name mc)
unfolding reject_model
reject_model-Bounding env name mc =
    bind-Bounding _ _ (event-Bounding mc _ _ _) (λ _. update_status-Bounding env name _)

report_unresolved-Bounding :
    (env : Env) (name : String) (mc : ModelClaim) (e : String)
    → Bounding (report_unresolved env name mc e)
unfolding report_unresolved
report_unresolved-Bounding env name mc e =
    bind-Bounding _ _ (event-Bounding mc _ _ _)
      (λ _. bind-Bounding _ _ (update_status-Bounding env name _) (λ _. fail-Bounding (Unit {0}) _))

report_satisfiable-Bounding :
    (env : Env) (name : String) (mc : ModelClaim) (b : Bounds)
    → Bounding (report_satisfiable env name mc b)
unfolding report_satisfiable report_transition
report_satisfiable-Bounding env name mc b =
    bind-Bounding _ _ (if-Bounding _ _ _ (pure-Bounding tt) (event-Bounding mc _ _ _))
      (λ _. update_status-Bounding env name _)

succeed_or-Bounding : (what : String) (o : Option String) → Bounding (succeed_or what o)
unfolding Bounding succeed_or
succeed_or-Bounding what none c h = h
succeed_or-Bounding what (some e) c h = h

after_create-Bounding :
    (name : String) (mc : ModelClaim) (b : Bounds) (o : Option String)
    → Bounding (after_create name mc b o)
unfolding after_create
after_create-Bounding name mc b o =
    bind-Bounding _ _ (succeed_or-Bounding _ o)
      (λ _. bind-Bounding _ _ (event-Bounding mc _ _ _) (λ _. pure-Bounding _))

after_delete-Bounding :
    (env : Env) (desired : Template) (o : Option String) → Bounding (after_delete env desired o)
unfolding Bounding after_delete
after_delete-Bounding env desired (some e) c h = h
after_delete-Bounding env desired none c h = succeed_or-Bounding _ env.create_template _ h

after_update-Bounding :
    (env : Env) (name : String) (desired : Template) (a : UpdateAnswer)
    → Bounding (after_update env name desired a)
unfolding Bounding after_update
after_update-Bounding env name desired updated c h = h
after_update-Bounding env name desired (update_failed e) c h = h
after_update-Bounding env name desired invalid c h =
    after_delete-Bounding env desired env.delete_template _ h

finish_update-Bounding :
    (env : Env) (name : String) (mc : ModelClaim) (b : Bounds) (desired : Template)
    (a : UpdateAnswer)
    → Bounding (finish_update env name mc b desired a)
unfolding finish_update
finish_update-Bounding env name mc b desired a =
    bind-Bounding _ _ (after_update-Bounding env name desired a)
      (λ _. bind-Bounding _ _ (event-Bounding mc _ _ _) (λ _. pure-Bounding _))

sync_template-Bounding :
    (env : Env) (name : String) (mc : ModelClaim) (b : Bounds) (desired : Template) (a : GetAnswer)
    → Bounding (sync_template env name mc b desired a)
unfolding sync_template create_missing update_drifted
sync_template-Bounding env name mc b desired not_found =
    call_for-Bounding (template_created desired) env.create_template (after_create name mc b)
      (after_create-Bounding name mc b env.create_template)
sync_template-Bounding env name mc b desired (get_failed e) = fail-Bounding Synced _
sync_template-Bounding env name mc b desired (found live) =
    if-Bounding (env.is_controlled_by live mc) _ _
      (if-Bounding (template_needs_update live desired) _ _
        (call_for-Bounding (template_updated (apply_desired live desired)) env.update_template
          (finish_update env name mc b desired)
          (finish_update-Bounding env name mc b desired env.update_template))
        (pure-Bounding in_sync))
      (bind-Bounding _ _ (report_conflict-Bounding env name mc) (λ _. pure-Bounding foreign))

after_sync-Bounding :
    (env : Env) (name : String) (mc : ModelClaim) (b : Bounds) (s : Synced)
    → Bounding (after_sync env name mc b s)
unfolding after_sync
after_sync-Bounding env name mc b foreign = pure-Bounding tt
after_sync-Bounding env name mc b in_sync = report_satisfiable-Bounding env name mc b

after_resolve-Bounding :
    (env : Env) (name : String) (mc : ModelClaim) (r : Reply Bounds)
    → Bounding (after_resolve env name mc r)
unfolding after_resolve
after_resolve-Bounding env name mc (err e) = report_unresolved-Bounding env name mc e
after_resolve-Bounding env name mc (ok b) =
    call_for-Bounding (template_got name) env.get_template
      (λ answer.
        sync_template env name mc b (desired_template env mc b) answer >>= after_sync env name mc b)
      (bind-Bounding _ _ (sync_template-Bounding env name mc b _ env.get_template)
        (after_sync-Bounding env name mc b))

reconcile-Bounding : (env : Env) (a : CacheAnswer) → Bounding (reconcile env a)
unfolding reconcile reconcile_claim resolve_claim
reconcile-Bounding env bad_key = pure-Bounding tt
reconcile-Bounding env (store_failed e) = fail-Bounding (Unit {0}) e
reconcile-Bounding env absent = pure-Bounding tt
reconcile-Bounding env (malformed e) = fail-Bounding (Unit {0}) e
reconcile-Bounding env (cached name mc) =
    if-Bounding _ _ _
      (bind-Bounding _ _ (resolve-Bounding env _ _ _ _) (after_resolve-Bounding env name mc))
      (reject_model-Bounding env name mc)

-- A pass whose start keeps at most 512 resolved tuples and 4096 messages ends with no more than that.
process_next-IsBounded :
    (env : Env) (a : CacheAnswer) (c : Controller)
    → IsBounded c
    → IsBounded (process_next env a c).1
unfolding process_next Bounding
process_next-IsBounded env a c h = reconcile-Bounding env a c h

-- Whatever the handlers and the workers do, the controller that starts with at most 512 resolved
-- tuples and 4096 messages in memory never keeps more than that.
pub run-IsBounded :
    (w : WorkQueue) {s t : Running w}
    → RunReachable w s t
    → IsBounded s.controller
    → IsBounded t.controller
unfolding notified taken pass_done
run-IsBounded w here h = h
run-IsBounded w (later r (notification s store n)) h = run-IsBounded w r h
run-IsBounded w (later r (get_key s k q e)) h = run-IsBounded w r h
run-IsBounded w (later r (pass_ended s k env a e)) h =
    process_next-IsBounded env a s.controller (run-IsBounded w r h)
