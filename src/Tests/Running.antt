-- ===== src/Tests/Running.antt =====
-- A queue of lists, and one pass of a worker that fails.
use llmfit_dra.Prelude.{
  String, Option, none, some, List, [], ◌∷◌, Bool, true, false, ◌==◌, ◌≡◌, refl, any, if◌then◌else◌,
  arith, ◌∙◌, Bool-cases, inl, inr,
}
use llmfit_dra.ModelClaim.Controller.Act.{err}
use llmfit_dra.ModelClaim.Controller.Env.{Env, not_found}
use llmfit_dra.ModelClaim.Controller.Reconcile.{malformed}
use llmfit_dra.ModelClaim.Controller.Watch.Notify.{StoredClaim, model_claim_added, notify}
use llmfit_dra.ModelClaim.Controller.Run.{
  WorkQueue, Running, without, notified, taken, pass_done, notification, get_key, pass_ended,
  RunReachable, here, later,
}
use llmfit_dra.ModelClaim.Controller.Memory.{IsBounded}
use llmfit_dra.ModelClaim.Controller.Memory.Passes.{run-IsBounded}
use llmfit_dra.ModelClaim.Controller.Run.Served.{QueueLaws, any-without, IsSound, run-IsSound}
use llmfit_dra.Tests.Fixtures.{env_of, fresh}

abbrev has : String → List String → Bool
has k ks = any (λ j. j == k) ks

-- The first pending key that is not being processed.
unfoldable first_idle : List String → List String → Option String
first_idle [] busy = none
first_idle (k ∷ rest) busy = if has k busy then first_idle rest busy else some k

record Lists : Type 0 where
  waiting : List String
  busy : List String

abbrev handed : String → Lists → Lists
handed k q = record { waiting = without k q.waiting; busy = k ∷ q.busy }

abbrev hand_out : Lists → Option String → Option (String × Lists)
hand_out q none = none
hand_out q (some k) = some (k, handed k q)

-- The pending keys, and those in processing.
abbrev list_queue : WorkQueue
list_queue = record {
  Queue = Lists;
  add = λ k q. record q { waiting = k ∷ q.waiting };
  add_limited = λ k q. record q { waiting = k ∷ q.waiting };
  forget_key = λ k q. q;
  done = λ k q. record q { busy = without k q.busy };
  get = λ q. hand_out q (first_idle q.waiting q.busy);
  pending = λ k q. has k q.waiting;
  processing = λ k q. has k q.busy;
}

first_idle-idle :
    (k : String) (ks busy : List String) → first_idle ks busy ≡ some k → has k busy ≡ false
unfolding first_idle
first_idle-idle k [] busy h = absurd (ground arith)
first_idle-idle k (j ∷ rest) busy h = elim (Bool-cases (has j busy)) [
  | inl held ↦ first_idle-idle k rest busy (ground (arith, held))
  | inr idle ↦ ground (arith, idle)
]

hand_out-some :
    (q : Lists) (o : Option String) (k : String) (rest : Lists)
    → hand_out q o ≡ some (k, rest)
    → (o ≡ some k) × (rest ≡ handed k q)
hand_out-some q none k rest h = absurd (ground arith)
hand_out-some q (some j) k rest h = (ground arith, ground arith)

handed-some :
    (q : Lists) (k : String) (rest : Lists)
    → hand_out q (first_idle q.waiting q.busy) ≡ some (k, rest)
    → rest ≡ handed k q
handed-some q k rest h = (hand_out-some q (first_idle q.waiting q.busy) k rest h).1

list_queue_laws : QueueLaws list_queue
list_queue_laws = record {
  pending_add = λ k j q. ground arith;
  pending_limited = λ k j q. ground arith;
  pending_forget = λ k j q. refl;
  pending_done = λ k j q. refl;
  processing_add = λ k j q. refl;
  processing_limited = λ k j q. refl;
  processing_forget = λ k j q. refl;
  processing_done = λ k j q. any-without k j q.busy;
  get_idle = λ k q rest h.
      first_idle-idle k q.waiting q.busy (hand_out-some q (first_idle q.waiting q.busy) k rest h).0;
  get_pending = λ k j q rest h ne.
      rw (handed-some q k rest h) (any-without k j q.waiting ∙ ground (arith, ne));
  get_processing = λ k j q rest h. rw (handed-some q k rest h) (ground arith);
}

abbrev first : Running list_queue
first = record {
  queue = record { waiting = []; busy = [] };
  controller = fresh;
  working = [];
  unserved = λ k. false;
}

first-IsSound : IsSound list_queue_laws first
first-IsSound = record { owed = λ k h. absurd (ground arith); flight = λ k. refl; apart = refl }

abbrev env : Env
env = env_of (err "no such model") not_found (λ t mc. true)

abbrev store : List StoredClaim
store = []

-- A ModelClaim is added, a worker takes it, and its pass fails.
abbrev added : Running list_queue
added = notified list_queue store (model_claim_added "default/chat") first

abbrev working : Running list_queue
working = taken list_queue "default/chat" (handed "default/chat" added.queue) added

abbrev put_back : Running list_queue
put_back = pass_done list_queue "default/chat" env (malformed "spec") working

got : list_queue.get added.queue ≡ some ("default/chat", handed "default/chat" added.queue)
unfolding notified notify first_idle
got = refl

at_work : has "default/chat" working.working ≡ true
unfolding taken
at_work = refl

run : RunReachable list_queue first put_back
run =
    later
      (later (later here (notification first store (model_claim_added "default/chat")))
        (get_key added "default/chat" _ got))
      (pass_ended working "default/chat" env (malformed "spec") at_work)

run-IsSound_example : IsSound list_queue_laws put_back
run-IsSound_example = run-IsSound list_queue_laws run first-IsSound

run-IsBounded_example : IsBounded put_back.controller
run-IsBounded_example = run-IsBounded list_queue run (omega arith, omega arith)
