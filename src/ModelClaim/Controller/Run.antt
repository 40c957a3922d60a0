-- ===== src/ModelClaim/Controller/Run.antt =====
-- `Run`: the informers' handlers and the workers around one queue, as interleaved steps. The queue is
-- client-go's rate-limiting work queue, of which the operations are a parameter, with their
-- documented behaviour as laws.
pub mod Served
use llmfit_dra.Prelude.{
  String, ℕ, Option, none, some, List, [], ◌∷◌, Bool, true, false, not, ◌&&◌, ◌||◌, ◌==◌, ◌≡◌, any,
  if◌then◌else◌,
}
use llmfit_dra.ModelClaim.Controller.Act.{Controller, Reply, ok, err}
use llmfit_dra.ModelClaim.Controller.Env.{Env}
use llmfit_dra.ModelClaim.Controller.Reconcile.{
  CacheAnswer, QueueCall, add_rate_limited, forget, reconcile, process_next,
}
use llmfit_dra.ModelClaim.Controller.Watch.Notify.{StoredClaim, Notification, notify}

-- `pending` tells the keys that a later Get will hand out, and `processing` those that were handed
-- out and are not done. An item that waits for its rate limit is pending.
pub record WorkQueue : Type 1 where
  pub Queue : Type 0
  pub add : String → Queue → Queue
  pub add_limited : String → Queue → Queue
  pub forget_key : String → Queue → Queue
  pub done : String → Queue → Queue
  pub get : Queue → Option (String × Queue)
  pub pending : String → Queue → Bool
  pub processing : String → Queue → Bool

abbrev pub is_failure : {A : Type 0} → Reply A → Bool
is_failure (ok a) = false
is_failure (err e) = true

-- The keys but one.
unfoldable pub without : String → List String → List String
without k [] = []
without k (j ∷ rest) = let others = without k rest in if j == k then others else j ∷ others

module _ (w : WorkQueue) where
  open w use {Queue, add, add_limited, forget_key, done, get}

  -- The controller with its queue, and the keys that its workers reconcile. Of `unserved` the code
  -- has no variable: a key of which a notification came since its last pass began, or whose last pass
  -- failed.
  pub record Running : Type 0 where
    pub queue : Queue
    pub controller : Controller
    pub working : List String
    pub unserved : String → Bool

  -- The handlers add each key.
  unfoldable pub add_keys : List String → Queue → Queue
  add_keys [] q = q
  add_keys (k ∷ rest) q = add_keys rest (add k q)

  unfoldable pub notified : List StoredClaim → Notification → Running → Running
  unfolding add_keys
  notified store n s = record s {
    queue = add_keys (notify store n) s.queue;
    unserved = λ k. s.unserved k || any (λ j. j == k) (notify store n);
  }

  -- What `processNext` tells the queue about the key, before the deferred Done.
  abbrev pub tell : Reply QueueCall → String → Queue → Queue
  tell (ok add_rate_limited) k q = add_limited k q
  tell (ok forget) k q = forget_key k q
  tell (err e) k q = q

  -- A worker's Get.
  unfoldable pub taken : String → Queue → Running → Running
  taken k q s = record s {
    queue = q;
    working = k ∷ s.working;
    unserved = λ j. if k == j then false else s.unserved j;
  }

  -- The end of `processNext`, with what its pass was answered.
  unfoldable pub pass_done : String → Env → CacheAnswer → Running → Running
  unfolding without
  pass_done k env answer s = record s {
    queue = done k (tell (process_next env answer s.controller).0 k s.queue);
    controller = (process_next env answer s.controller).1;
    working = without k s.working;
    unserved = λ j. s.unserved j || k == j && is_failure (reconcile env answer s.controller).0;
  }

  -- Whatever happens until the context is done. A pass takes effect as a whole when it ends: the
  -- passes of two workers share only the caches of the controller, whose sections under their locks
  -- may alternate in the code.
  pub data RunStep : Running → Running → Type 1 where
    notification :
        (s : Running) (store : List StoredClaim) (n : Notification) → RunStep s (notified store n s)
    get_key :
        (s : Running) (k : String) (q : Queue) → get s.queue ≡ some (k, q) → RunStep s (taken k q s)
    pass_ended :
        (s : Running) (k : String) (env : Env) (answer : CacheAnswer)
        → any (λ j. j == k) s.working ≡ true
        → RunStep s (pass_done k env answer s)

  pub data RunReachable (s : Running) : Running → Type 1 where
    here : RunReachable s s
    later : {t u : Running} → RunReachable s t → RunStep t u → RunReachable s u
