-- ===== src/Hotplug/NoLoss.antt =====
-- Listen of hotplug.go: no relevant event is lost.
use llmfit_dra.Prelude.{
  ◌≤◌, ◌≡◌, inl, inr, Option, none, some, Bool, true, false, not, ◌&&◌, ◌||◌, ltb, eqb, arith, refl,
  Bool-cases,
}
use llmfit_dra.Hotplug.Uevent.{
  Uevent, parse_uevent, relevant, interrupted, would_block, no_buffers, other_error,
  classify_read_err,
}
use llmfit_dra.Hotplug.Listener.{
  Coalescer, draining, stopped, Listener, capacity, offer, on_event, on_read_error, ReadResult, got,
  failed, is_relevant, matters, reader_turn, signal, CoalescerStep, take, drain, settle, finish,
  Step, read, shut_down, coalesce, receive, Reachable, start, after,
}

abbrev pub is_draining : Coalescer → Bool
is_draining draining = true
is_draining _ = false

abbrev pub is_stopped : Coalescer → Bool
is_stopped stopped = true
is_stopped _ = false

-- The queue is within its capacity; what is unseen is queued, being drained or signalled; a
-- coalescer that stopped left nothing, and nothing is read any more.
pub record IsSound (s : Listener) : Type 0 where
  pub bounded : s.queued ≤ capacity
  pub covered : (not s.unseen || ltb 0 s.queued || is_draining s.coalescer || s.pending) ≡ true
  pub ended : (not (is_stopped s.coalescer) || eqb s.queued 0 && s.closed) ≡ true

-- The same state, with more that the consumer has not seen.
abbrev told : Bool → Listener → Listener
told b s = record s { unseen = s.unseen || b }

told_nothing : (s : Listener) → IsSound s → IsSound (told false s)
told_nothing s i = record {
  bounded = i.bounded;
  covered = ground (arith, i.covered);
  ended = i.ended;
}

offer-IsSound :
    (b : Bool) (s : Listener) → s.closed ≡ false → IsSound s → IsSound (told b (offer s))
unfolding offer
offer-IsSound b s open_now i = record {
  bounded = ground (arith, i.bounded);
  covered = ground (arith, i.bounded);
  ended = ground (arith, i.ended);
}

closed-IsSound : (s : Listener) → IsSound s → IsSound (record s { closed = true })
closed-IsSound s i = record {
  bounded = i.bounded;
  covered = i.covered;
  ended = ground (arith, i.ended);
}

coalescer-IsSound : (s t : Listener) → CoalescerStep s t → IsSound s → IsSound t
unfolding signal
coalescer-IsSound _ _ (take s n h q) i = record {
  bounded = ground (arith, i.bounded);
  covered = ground arith;
  ended = ground arith;
}
coalescer-IsSound _ _ (drain s n h q) i = record {
  bounded = ground (arith, i.bounded);
  covered = ground (arith, h);
  ended = ground (arith, h);
}
coalescer-IsSound _ _ (settle s h) i = record {
  bounded = ground (arith, i.bounded);
  covered = ground arith;
  ended = ground arith;
}
coalescer-IsSound _ _ (finish s h q c) i = record {
  bounded = ground (arith, i.bounded);
  covered = ground (arith, i.covered);
  ended = ground arith;
}

event-IsSound :
    (ev : Option Uevent) (s : Listener)
    → s.closed ≡ false
    → IsSound s
    → IsSound (record (on_event ev s) { unseen = s.unseen || is_relevant ev })
unfolding on_event
event-IsSound none s h i = told_nothing s i
event-IsSound (some ev) s h i = elim (Bool-cases (relevant ev)) [
  | inl yes_relevant ↦ rw yes_relevant (offer-IsSound true s h i)
  | inr noise ↦ rw noise (told_nothing s i)
]

-- One turn of the reader, and what it learns.
reader-IsSound :
    (r : ReadResult) (s : Listener)
    → s.closed ≡ false
    → IsSound s
    → IsSound (record (reader_turn r s) { unseen = s.unseen || matters r })
unfolding reader_turn matters on_event on_read_error classify_read_err
reader-IsSound (got buf) s h i = event-IsSound (parse_uevent buf) s h i
reader-IsSound (failed interrupted) s h i = told_nothing s i
reader-IsSound (failed would_block) s h i = told_nothing s i
reader-IsSound (failed no_buffers) s h i = offer-IsSound true s h i
reader-IsSound (failed other_error) s h i = told_nothing _ (closed-IsSound s i)

Step-IsSound : (s t : Listener) → Step s t → IsSound s → IsSound t
Step-IsSound _ _ (read s r h) i = reader-IsSound r s h i
Step-IsSound _ _ (shut_down s h) i = closed-IsSound s i
Step-IsSound s t (coalesce _ _ step) i = coalescer-IsSound s t step i
Step-IsSound _ _ (receive s h) i = record {
  bounded = i.bounded;
  covered = ground arith;
  ended = i.ended;
}

-- In every state that the listener reaches, the channel holds at most 16 events, and a relevant
-- event or a report of lost ones that was read since the consumer last took a signal is queued,
-- being drained or signalled.
pub reachable-IsSound : (s : Listener) → Reachable s → IsSound s
reachable-IsSound _ start = record { bounded = omega arith; covered = refl; ended = refl }
reachable-IsSound t (after s _ r step) = Step-IsSound s t step (reachable-IsSound s r)
