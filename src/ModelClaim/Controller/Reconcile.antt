-- ===== src/ModelClaim/Controller/Reconcile.antt =====
-- `reconcile` and `processNext`: one pass over one ModelClaim.
use llmfit_dra.Prelude.{String, Option, none, some, if◌then◌else◌}
use llmfit_dra.Prelude.Int64.{pos}
use llmfit_dra.ModelClaim.Bounds.{Bounds}
use llmfit_dra.ModelClaim.Types.{ModelClaim, Template}
use llmfit_dra.ModelClaim.Template.{build_template}
use llmfit_dra.ModelClaim.Controller.Act.{
  Act, Reply, ok, err, pure, fail, call_for, ◌>>=◌, template_got,
}
use llmfit_dra.ModelClaim.Controller.Env.{Env}
use llmfit_dra.ModelClaim.Controller.ModelRef.{valid_model_ref}
use llmfit_dra.ModelClaim.Controller.Resolve.{resolve}
use llmfit_dra.ModelClaim.Controller.Report.{report_unresolved, reject_model, device_class_of}
use llmfit_dra.ModelClaim.Controller.Sync.{Synced, in_sync, foreign, sync_template}
use llmfit_dra.ModelClaim.Controller.Verdict.{report_satisfiable}

abbrev pub or_else {ℓ} : {A : Type ℓ} → A → Option A → A
or_else d none = d
or_else d (some a) = a

unfoldable pub after_sync : Env → String → ModelClaim → Bounds → Synced → Act (Unit {0})
after_sync env name mc b foreign = pure tt
after_sync env name mc b in_sync = report_satisfiable env name mc b

abbrev pub desired_template : Env → ModelClaim → Bounds → Template
desired_template env mc b =
    build_template mc b (device_class_of mc) mc.spec.extra_selectors env.boards

unfoldable pub after_resolve : Env → String → ModelClaim → Reply Bounds → Act (Unit {0})
unfolding after_sync
after_resolve env name mc (err e) = report_unresolved env name mc e
after_resolve env name mc (ok b) = do
  answer ← call_for (template_got name) env.get_template
  synced ← sync_template env name mc b (desired_template env mc b) answer
  after_sync env name mc b synced

-- The call of `resolve`, with the defaults of the fields that may be missing.
unfoldable pub resolve_claim : Env → ModelClaim → Act (Reply Bounds)
resolve_claim env mc =
    resolve env mc.spec.model (or_else "20" mc.spec.min_tps) mc.spec.quant
      (or_else (pos 0) mc.spec.efficiency_pct)

-- `reconcile`, from the decoded object on.
unfoldable pub reconcile_claim : Env → String → ModelClaim → Act (Unit {0})
reconcile_claim env name mc =
    if valid_model_ref mc.spec.model
    then (do answer ← resolve_claim env mc; after_resolve env name mc answer)
    else reject_model env name mc

-- What the informer's store has for a key.
pub data CacheAnswer : Type 0 where
  bad_key : CacheAnswer
  store_failed : String → CacheAnswer
  absent : CacheAnswer
  malformed : String → CacheAnswer
  cached : String → ModelClaim → CacheAnswer

unfoldable pub reconcile : Env → CacheAnswer → Act (Unit {0})
reconcile env bad_key = pure tt
reconcile env (store_failed e) = fail e
reconcile env absent = pure tt
reconcile env (malformed e) = fail e
reconcile env (cached name mc) = reconcile_claim env name mc

-- What `processNext` tells the queue about the key.
pub data QueueCall : Type 0 where
  add_rate_limited forget : QueueCall

abbrev pub queue_call : Reply (Unit {0}) → QueueCall
queue_call (ok _) = forget
queue_call (err _) = add_rate_limited

-- `processNext`, for a key that the queue gave, but for its counter and its heartbeat.
unfoldable pub process_next : Env → CacheAnswer → Act QueueCall
process_next env answer c = let r = reconcile env answer c in (ok (queue_call r.0), r.1)
