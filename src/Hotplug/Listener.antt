-- ===== src/Hotplug/Listener.antt =====
-- Listen of hotplug.go: the reader, the coalescer and the pending signal as one machine, whose
-- steps interleave in any order. Time is left to the steps: the debounce timer may fire at any
-- moment of a drain. The opening of the socket is not modelled.
use llmfit_dra.Prelude.{
  ℕ, ◌+◌, ◌≡◌, Option, none, some, Bool, true, false, ◌||◌, if◌then◌else◌, ltb,
}
use llmfit_dra.Hotplug.Uevent.{
  Bytes, Uevent, parse_uevent, relevant, ReadError, no_buffers, ReadAction, act_retry, act_overrun,
  act_fatal, classify_read_err,
}

pub data Coalescer : Type 0 where
  idle draining stopped : Coalescer

-- `queued` is how many events the channel `raw` holds, `closed` that it is closed; `pending` is
-- whether the channel of signals holds one. `unseen` is no variable of the code: something that
-- matters was read since the consumer last took a signal.
pub record Listener : Type 0 where
  pub queued : ℕ
  pub closed : Bool
  pub coalescer : Coalescer
  pub pending : Bool
  pub unseen : Bool

abbrev pub capacity : ℕ
capacity = 16

abbrev pub first_listener : Listener
first_listener = record {
  queued = 0;
  closed = false;
  coalescer = idle;
  pending = false;
  unseen = false;
}

-- `select { case raw <- ev: default: }`
unfoldable pub offer : Listener → Listener
offer s = record s { queued = if ltb s.queued capacity then s.queued + 1 else s.queued }

unfoldable pub on_event : Option Uevent → Listener → Listener
unfolding offer
on_event none s = s
on_event (some ev) s = if relevant ev then offer s else s

unfoldable pub on_read_error : ReadAction → Listener → Listener
unfolding offer
on_read_error act_retry s = s
on_read_error act_overrun s = offer s
on_read_error act_fatal s = record s { closed = true }

-- What one read gives: a message or an error.
pub data ReadResult : Type 0 where
  got : Bytes → ReadResult
  failed : ReadError → ReadResult

-- One turn of the reader's loop.
unfoldable pub reader_turn : ReadResult → Listener → Listener
unfolding on_event on_read_error parse_uevent classify_read_err
reader_turn (got buf) s = on_event (parse_uevent buf) s
reader_turn (failed e) s = on_read_error (classify_read_err e) s

abbrev pub is_relevant : Option Uevent → Bool
is_relevant none = false
is_relevant (some ev) = relevant ev

-- What the consumer must hear of: a relevant event, or that the kernel dropped some.
unfoldable pub matters : ReadResult → Bool
matters (got buf) = is_relevant (parse_uevent buf)
matters (failed no_buffers) = true
matters (failed _) = false

-- The end of a drain: `select { case events <- struct{}{}: default: }`.
unfoldable pub signal : Listener → Listener
signal s = record s { coalescer = idle; pending = true }

-- One step of the coalescer.
pub data CoalescerStep : Listener → Listener → Type 0 where
  take :
      (s : Listener) (n : ℕ)
      → s.coalescer ≡ idle
      → s.queued ≡ n + 1
      → CoalescerStep s (record s { coalescer = draining; queued = n })
  drain :
      (s : Listener) (n : ℕ)
      → s.coalescer ≡ draining
      → s.queued ≡ n + 1
      → CoalescerStep s (record s { queued = n })
  settle : (s : Listener) → s.coalescer ≡ draining → CoalescerStep s (signal s)
  finish :
      (s : Listener)
      → s.coalescer ≡ idle
      → s.queued ≡ 0
      → s.closed ≡ true
      → CoalescerStep s (record s { coalescer = stopped })

-- One step of the reader, which may also stop, of the coalescer, or of the consumer of the signals.
pub data Step : Listener → Listener → Type 0 where
  read :
      (s : Listener) (r : ReadResult)
      → s.closed ≡ false
      → Step s (record (reader_turn r s) { unseen = s.unseen || matters r })
  shut_down : (s : Listener) → s.closed ≡ false → Step s (record s { closed = true })
  coalesce : (s t : Listener) → CoalescerStep s t → Step s t
  receive :
      (s : Listener) → s.pending ≡ true → Step s (record s { pending = false; unseen = false })

pub data Reachable : Listener → Type 0 where
  start : Reachable first_listener
  after : (s t : Listener) → Reachable s → Step s t → Reachable t
