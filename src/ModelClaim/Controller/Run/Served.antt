-- ===== src/ModelClaim/Controller/Run/Served.antt =====
-- `Run` of controller.go: no notification is lost, and no key has two workers.
use llmfit_dra.Prelude.{
  String, some, List, [], ◌∷◌, Bool, true, false, not, ◌&&◌, ◌||◌, ◌==◌, ◌≡◌, refl, any,
  if◌then◌else◌, arith, eq_iff, eq_refl, subst, Bool-cases, inl, inr,
}
use llmfit_dra.ModelClaim.Controller.Act.{Controller, Reply, ok, err}
use llmfit_dra.ModelClaim.Controller.Env.{Env}
use llmfit_dra.ModelClaim.Controller.Reconcile.{
  CacheAnswer, QueueCall, add_rate_limited, forget, reconcile, process_next, queue_call,
}
use llmfit_dra.ModelClaim.Controller.Watch.Notify.{StoredClaim, Notification, notify}
use llmfit_dra.ModelClaim.Controller.Run.{
  WorkQueue, Running, add_keys, notified, tell, is_failure, without, taken, pass_done, RunStep,
  notification, get_key, pass_ended, RunReachable, here, later,
}

-- The documented behaviour of the work queue, until it is shut down: Add and AddRateLimited make a
-- key pending, Get hands out a pending key that is not being processed, and Done ends the
-- processing.
module _ (w : WorkQueue) where
  open w use {Queue, add, add_limited, forget_key, done, get, pending, processing}

  pub record QueueLaws : Type 0 where
    pub pending_add : (k j : String) (q : Queue) → pending j (add k q) ≡ (pending j q || k == j)
    pub pending_limited :
        (k j : String) (q : Queue) → pending j (add_limited k q) ≡ (pending j q || k == j)
    pub pending_forget : (k j : String) (q : Queue) → pending j (forget_key k q) ≡ pending j q
    pub pending_done : (k j : String) (q : Queue) → pending j (done k q) ≡ pending j q
    pub processing_add : (k j : String) (q : Queue) → processing j (add k q) ≡ processing j q
    pub processing_limited :
        (k j : String) (q : Queue) → processing j (add_limited k q) ≡ processing j q
    pub processing_forget :
        (k j : String) (q : Queue) → processing j (forget_key k q) ≡ processing j q
    pub processing_done :
        (k j : String) (q : Queue)
        → processing j (done k q) ≡ (if k == j then false else processing j q)
    pub get_idle : (k : String) (q rest : Queue) → get q ≡ some (k, rest) → processing k q ≡ false
    pub get_pending :
        (k j : String) (q rest : Queue)
        → get q ≡ some (k, rest)
        → (k == j) ≡ false
        → pending j rest ≡ pending j q
    pub get_processing :
        (k j : String) (q rest : Queue)
        → get q ≡ some (k, rest)
        → processing j rest ≡ (processing j q || k == j)

-- A list names no key twice.
abbrev pub distinct : List String → Bool
distinct [] = true
distinct (k ∷ rest) = not (any (λ j. j == k) rest) && distinct rest

pub any-without :
    (k j : String) (ks : List String)
    → any (λ i. i == j) (without k ks) ≡ (if k == j then false else any (λ i. i == j) ks)
unfolding without
any-without k j [] = ground arith
any-without k j (i ∷ rest) =
    ground (arith, any-without k j rest, eq_iff i j, eq_iff i k, eq_iff k j)

distinct-without :
    (k : String) (ks : List String) → distinct ks ≡ true → distinct (without k ks) ≡ true
unfolding without
distinct-without k [] h = refl
distinct-without k (i ∷ rest) h =
    ground (arith, distinct-without k rest, any-without k i rest, eq_iff i k, eq_iff k i)

module _ {w : WorkQueue} (laws : QueueLaws w) where
  open w use {Queue, pending, processing}

  add_keys-pending :
      (ks : List String) (j : String) (q : Queue)
      → pending j (add_keys w ks q) ≡ (pending j q || any (λ k. k == j) ks)
  unfolding add_keys
  add_keys-pending [] j q = ground arith
  add_keys-pending (k ∷ rest) j q =
      ground (arith, add_keys-pending rest j (w.add k q), laws.pending_add k j q)

  add_keys-processing :
      (ks : List String) (j : String) (q : Queue) → processing j (add_keys w ks q) ≡ processing j q
  unfolding add_keys
  add_keys-processing [] j q = refl
  add_keys-processing (k ∷ rest) j q =
      ground (arith, add_keys-processing rest j (w.add k q), laws.processing_add k j q)

  tell-pending :
      (r : Reply QueueCall) (k j : String) (q : Queue)
      → pending j q ≡ true
      → pending j (tell w r k q) ≡ true
  tell-pending (ok add_rate_limited) k j q h = ground (arith, laws.pending_limited k j q)
  tell-pending (ok forget) k j q h = ground (arith, laws.pending_forget k j q)
  tell-pending (err e) k j q h = h

  tell-processing :
      (r : Reply QueueCall) (k j : String) (q : Queue)
      → processing j (tell w r k q) ≡ processing j q
  tell-processing (ok add_rate_limited) k j q = laws.processing_limited k j q
  tell-processing (ok forget) k j q = laws.processing_forget k j q
  tell-processing (err e) k j q = refl

  -- A key whose pass failed is put back.
  failed-pending :
      (env : Env) (answer : CacheAnswer) (c : Controller) (k : String) (q : Queue)
      → is_failure (reconcile env answer c).0 ≡ true
      → pending k (tell w (process_next env answer c).0 k q) ≡ true
  unfolding process_next
  failed-pending env answer c k q h = failed-call (reconcile env answer c).0 h
    where
      failed-call :
          (r : Reply (Unit {0}))
          → is_failure r ≡ true
          → pending k (tell w (ok (queue_call r)) k q) ≡ true
      failed-call (ok a) h = ground arith
      failed-call (err e) h = ground (arith, laws.pending_limited k k q, eq_refl k)

  -- A key that was not served since its last notification or failure is pending; the queue's keys in
  -- processing are those of the workers, and no two workers have the same key.
  pub record IsSound (s : Running w) : Type 0 where
    pub owed : (k : String) → s.unserved k ≡ true → pending k s.queue ≡ true
    pub flight : (k : String) → processing k s.queue ≡ any (λ j. j == k) s.working
    pub apart : distinct s.working ≡ true

  notified-IsSound :
      (store : List StoredClaim) (n : Notification) (s : Running w)
      → IsSound s
      → IsSound (notified w store n s)
  unfolding notified
  notified-IsSound store n s i = record {
    owed = λ k h. ground (arith, i.owed k, add_keys-pending (notify store n) k s.queue);
    flight = λ k. ground (arith, i.flight k, add_keys-processing (notify store n) k s.queue);
    apart = i.apart;
  }

  taken-IsSound :
      (s : Running w) (k : String) (q : Queue)
      → w.get s.queue ≡ some (k, q)
      → IsSound s
      → IsSound (taken w k q s)
  unfolding taken
  taken-IsSound s k q h i = record {
    owed = λ j e. ground (arith, i.owed j, laws.get_pending k j s.queue q h);
    flight = λ j. ground (arith, i.flight j, laws.get_processing k j s.queue q h);
    apart = ground (arith, i.apart, i.flight k, laws.get_idle k s.queue q h);
  }

  pass_done-IsSound :
      (s : Running w) (k : String) (env : Env) (answer : CacheAnswer)
      → IsSound s
      → IsSound (pass_done w k env answer s)
  unfolding pass_done
  pass_done-IsSound s k env answer i =
      let r = (process_next env answer s.controller).0 in
      let told = tell w r k s.queue in
      record {
        owed = λ j e. rw (laws.pending_done k j told) (elim (Bool-cases (s.unserved j)) [
          | inl before ↦ tell-pending r k j s.queue (i.owed j before)
          | inr served ↦
              let now : (k == j && is_failure (reconcile env answer s.controller).0) ≡ true =
                ground (arith, served, e) in
              subst (λ x. pending x told ≡ true) (ground (arith, now, eq_iff k j))
                (failed-pending env answer s.controller k s.queue (ground (arith, now)))
        ]);
        flight = λ j. ground (
          arith,
          i.flight j,
          laws.processing_done k j told,
          tell-processing r k j s.queue,
          any-without k j s.working,
        );
        apart = distinct-without k s.working i.apart;
      }

  RunStep-IsSound : {s t : Running w} → RunStep w s t → IsSound s → IsSound t
  RunStep-IsSound (notification s store n) i = notified-IsSound store n s i
  RunStep-IsSound (get_key s k q h) i = taken-IsSound s k q h i
  RunStep-IsSound (pass_ended s k env answer h) i = pass_done-IsSound s k env answer i

  -- From a sound state, such as one in which nothing is owed and no worker has a key, every reachable
  -- state is sound: a key with a notification or a failed pass since its last pass began is pending,
  -- and no two workers have the same key.
  pub run-IsSound : {s t : Running w} → RunReachable w s t → IsSound s → IsSound t
  run-IsSound here i = i
  run-IsSound (later r step) i = RunStep-IsSound step (run-IsSound r i)
