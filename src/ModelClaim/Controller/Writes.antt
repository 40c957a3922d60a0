-- ===== src/ModelClaim/Controller/Writes.antt =====
-- The writes of ResourceClaimTemplates that a pass makes, in their order.
pub mod Quiet
pub mod Planned
pub mod Pass
use llmfit_dra.Prelude.{
  String, Option, none, some, List, [], ◌∷◌, Bool, true, false, select, select-append, ◌≡◌, refl,
  arith, ◌∙◌, ◌==◌, ap, Bool-cases, inl, inr, if◌then◌else◌,
}
use mathlib.Core.List
use mathlib.Core.List.{append-nil}
use llmfit_dra.ModelClaim.Types.{ModelClaim, ModelClaimStatus}
use llmfit_dra.ModelClaim.Controller.Act.{
  Act, Call, Event, Controller, Reply, ok, err, and_then, ◌>>=◌, record_call, template_created,
  template_updated, template_deleted, status_got, status_updated, event_created, pure, fail,
}
use llmfit_dra.ModelClaim.Controller.Env.{
  Env, claim_missing, claim_failed, undecodable, claim_found, ClaimAnswer, StatusAnswer, status_ok,
  conflict, status_failed,
}
use llmfit_dra.ModelClaim.Controller.Events.{event, dedup_key, remember, last_message}
use llmfit_dra.ModelClaim.Controller.Status.{update_status, with_claim, write_status, status_reply}

unfoldable pub is_template_write : Call → Bool
is_template_write (template_created t) = true
is_template_write (template_updated t) = true
is_template_write (template_deleted n) = true
is_template_write _ = false

unfoldable pub writes : Controller → List Call
writes c = select is_template_write c.calls

pub writes-record_call :
    (call : Call) (c : Controller)
    → writes (record_call call c) ≡ List.◌++◌ (writes c) (select is_template_write (call ∷ []))
unfolding writes
writes-record_call call c = select-append is_template_write c.calls (call ∷ [])

pub quiet_call :
    (call : Call) (c : Controller)
    → is_template_write call ≡ false
    → writes (record_call call c) ≡ writes c
unfolding writes
quiet_call call c h =
    writes-record_call call c
    ∙ (ap (λ b. List.◌++◌ (writes c) (if b then call ∷ [] else [])) h ∙ append-nil (writes c))

-- An action that writes no template.
unfoldable pub IsQuiet : {A : Type 0} → Act A → Type 0
IsQuiet m = (c : Controller) → writes (m c).1 ≡ writes c

pub and_then-IsQuiet :
    {A B : Type 0} (r : Reply A) (f : A → Act B)
    → ((a : A) → IsQuiet (f a))
    → IsQuiet (and_then r f)
unfolding IsQuiet
and_then-IsQuiet (ok a) f h c = h a c
and_then-IsQuiet (err e) f h c = refl

pub bind-IsQuiet :
    {A B : Type 0} (m : Act A) (f : A → Act B)
    → IsQuiet m
    → ((a : A) → IsQuiet (f a))
    → IsQuiet (m >>= f)
unfolding IsQuiet
bind-IsQuiet m f h k c = and_then-IsQuiet (m c).0 f k (m c).1 ∙ h c

abbrev event_result : String → Event → Controller → Bool → Reply (Unit {0}) × Controller
event_result key e c duplicate = if duplicate then (ok tt, c) else (
  ok tt,
  record_call (event_created e) (record c { last_event = remember key e.message c.last_event }),
)

pub event-IsQuiet :
    (mc : ModelClaim) (kind reason message : String) → IsQuiet (event mc kind reason message)
unfolding IsQuiet event writes is_template_write
event-IsQuiet mc kind reason message c =
    elim (Bool-cases (last_message (dedup_key mc reason) c.last_event == message)) [
      | inl h ↦
          ap
            (λ b.
              writes
                (event_result (dedup_key mc reason)
                  (record { kind = kind; reason = reason; message = message }) c b).1)
            h
      | inr h ↦
          ap
            (λ b.
              writes
                (event_result (dedup_key mc reason)
                  (record { kind = kind; reason = reason; message = message }) c b).1)
            h
          ∙ quiet_call (event_created (record { kind = kind; reason = reason; message = message }))
              c refl
    ]

status_reply-IsQuiet : (a : StatusAnswer) → IsQuiet (status_reply a)
unfolding IsQuiet status_reply
status_reply-IsQuiet status_ok c = refl
status_reply-IsQuiet conflict c = refl
status_reply-IsQuiet (status_failed e) c = refl

write_status-IsQuiet :
    (env : Env) (o : Option String) (s : ModelClaimStatus) → IsQuiet (write_status env o s)
unfolding IsQuiet write_status is_template_write
write_status-IsQuiet env (some e) s c = refl
write_status-IsQuiet env none s c =
    status_reply-IsQuiet env.update_status _ ∙ quiet_call (status_updated s) c refl

with_claim-IsQuiet :
    (env : Env) (mutate : ModelClaimStatus → ModelClaimStatus) (a : ClaimAnswer)
    → IsQuiet (with_claim env mutate a)
unfolding IsQuiet with_claim
with_claim-IsQuiet env mutate claim_missing c = refl
with_claim-IsQuiet env mutate (claim_failed e) c = refl
with_claim-IsQuiet env mutate (undecodable e) c = refl
with_claim-IsQuiet env mutate (claim_found mc) c = write_status-IsQuiet env env.encode_error _ c

pub update_status-IsQuiet :
    (env : Env) (name : String) (mutate : ModelClaimStatus → ModelClaimStatus)
    → IsQuiet (update_status env name mutate)
unfolding IsQuiet update_status is_template_write
update_status-IsQuiet env name mutate c =
    with_claim-IsQuiet env mutate env.get_claim _ ∙ quiet_call (status_got name) c refl
