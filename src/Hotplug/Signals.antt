-- ===== src/Hotplug/Signals.antt =====
-- Listen of hotplug.go: a relevant event becomes a signal, however the coalescer is scheduled.
use llmfit_dra.Prelude.{
  ℕ, zero, suc, ◌+◌, ◌*◌, ◌<◌, ◌≡◌, inl, inr, true, false, arith, refl, ◌∙◌, Bool-cases,
}
use llmfit_dra.Hotplug.Listener.{
  Coalescer, idle, draining, stopped, Listener, signal, CoalescerStep, take, drain, settle, finish,
  coalesce, Reachable, after,
}
use llmfit_dra.Hotplug.NoLoss.{IsSound, reachable-IsSound}

-- How much the coalescer has left to do.
abbrev weight : Coalescer → ℕ
weight idle = 1
weight draining = 2
weight stopped = 0

abbrev pub work : Listener → ℕ
work s = 2 * s.queued + weight s.coalescer

-- Whatever steps the coalescer takes from here, it comes to a pending signal: there is one, or it
-- has a step to take, and comes to one after each that it may take.
pub data Signals : Listener → Type 0 where
  now : (s : Listener) → s.pending ≡ true → Signals s
  later :
      (s : Listener)
      → (t : Listener) × CoalescerStep s t
      → ((t : Listener) → CoalescerStep s t → Signals t)
      → Signals s

-- Each step leaves less to do, so the coalescer comes to rest if nothing more is read.
pub step-work : (s t : Listener) → CoalescerStep s t → work t < work s
unfolding signal
step-work _ _ (take s n h q) = ground arith
step-work _ _ (drain s n h q) = ground arith
step-work _ _ (settle s h) = ground arith
step-work _ _ (finish s h q c) = ground arith

step-unseen : (s t : Listener) → CoalescerStep s t → t.unseen ≡ s.unseen
unfolding signal
step-unseen _ _ (take s n h q) = refl
step-unseen _ _ (drain s n h q) = refl
step-unseen _ _ (settle s h) = refl
step-unseen _ _ (finish s h q c) = refl

can_step :
    (s : Listener) (c : Coalescer) (q : ℕ)
    → s.coalescer ≡ c
    → s.queued ≡ q
    → IsSound s
    → s.unseen ≡ true
    → s.pending ≡ false
    → (t : Listener) × CoalescerStep s t
can_step s draining q h k i u p = (_, settle s h)
can_step s idle zero h k i u p = absurd (ground (arith, i.covered))
can_step s idle (suc n) h k i u p = (_, take s n h (ground arith))
can_step s stopped q h k i u p = absurd (ground (arith, i.covered, i.ended))

Signals-within : (n : ℕ) (s : Listener) → work s < n → Reachable s → s.unseen ≡ true → Signals s
Signals-within zero s h r u = absurd (omega arith)
Signals-within (suc n) s h r u = elim (Bool-cases s.pending) [
  | inl yes_pending ↦ now s yes_pending
  | inr not_yet ↦
      later s (can_step s s.coalescer s.queued refl refl (reachable-IsSound s r) u not_yet)
        (λ t step.
          Signals-within n t (omega (arith, step-work s t step)) (after s t r (coalesce s t step))
            (step-unseen s t step ∙ u))
]

-- From every state that the listener reaches with a relevant event or a report of lost ones that
-- the consumer has not seen, the coalescer comes to a pending signal, whatever steps it takes.
pub unseen-Signals : (s : Listener) → Reachable s → s.unseen ≡ true → Signals s
unseen-Signals s r u = Signals-within (suc (work s)) s (omega arith) r u
