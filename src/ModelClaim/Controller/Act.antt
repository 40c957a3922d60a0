-- ===== src/ModelClaim/Controller/Act.antt =====
-- Actions on the controller's state that may return an error. What was done before the error stays
-- done, so the state comes back beside it.
use llmfit_dra.Prelude.{String, ℕ, List, [], ◌∷◌}
use llmfit_dra.Prelude.Maps.{GoMap}
use mathlib.Core.List
use llmfit_dra.ModelClaim.Bounds.{Bounds}
use llmfit_dra.ModelClaim.Types.{Template, ModelClaimStatus}

pub record Event : Type 0 where
  pub kind : String
  pub reason : String
  pub message : String

-- The calls that leave the process, in the order in which they are made.
pub data Call : Type 0 where
  resolver_called : String → Call
  template_got : String → Call
  template_created : Template → Call
  template_updated : Template → Call
  template_deleted : String → Call
  event_created : Event → Call
  status_got : String → Call
  status_updated : ModelClaimStatus → Call

-- `expires` is a time in nanoseconds.
pub record CacheEntry : Type 0 where
  pub bounds : Bounds
  pub expires : ℕ

pub record Controller : Type 0 where
  pub resolve_cache : GoMap CacheEntry
  pub last_event : GoMap String
  pub calls : List Call

pub data Reply (A : Type 0) : Type 0 where
  ok : A → Reply A
  err : String → Reply A

abbrev pub Act : Type 0 → Type 0
Act A = Controller → Reply A × Controller

module _ {A : Type 0} where
  abbrev pub pure : A → Act A
  pure a c = (ok a, c)

  abbrev pub fail : String → Act A
  fail e c = (err e, c)

module _ {A B : Type 0} where
  abbrev pub and_then : Reply A → (A → Act B) → Act B
  and_then (ok a) f c = f a c
  and_then (err e) f c = (err e, c)

  infixl 10 ◌>>=◌ ◌>>◌
  abbrev pub ◌>>=◌ : Act A → (A → Act B) → Act B
  (m >>= f) c = and_then (m c).0 f (m c).1

  abbrev pub ◌>>◌ : Act A → Act B → Act B
  m >> n = m >>= λ _. n

abbrev pub record_call : Call → Controller → Controller
record_call call c = record c { calls = List.◌++◌ c.calls (call ∷ []) }

-- A call whose answer is `r`.
abbrev pub call_for : {A : Type 0} → Call → A → Act A
call_for call r c = (ok r, record_call call c)
