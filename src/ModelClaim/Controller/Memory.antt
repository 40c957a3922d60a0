-- ===== src/ModelClaim/Controller/Memory.antt =====
-- What the controller keeps in memory between passes: the resolve cache and the last events.
pub mod Passes
use llmfit_dra.Prelude.{
  String, ℕ, ◌≤◌, Option, none, some, Bool, true, false, arith, length, ◌≡◌, refl, if◌then◌else◌,
}
use llmfit_dra.Prelude.Int64.{ℤ}
use llmfit_dra.ModelClaim.Bounds.{Bounds}
use llmfit_dra.ModelClaim.Types.{ModelClaim, ModelClaimStatus}
use llmfit_dra.ModelClaim.Controller.Act.{
  Act, Call, Controller, Reply, ok, err, pure, fail, call_for, record_call, resolver_called,
  and_then, ◌>>=◌,
}
use llmfit_dra.ModelClaim.Controller.Env.{
  Env, claim_missing, claim_failed, undecodable, claim_found, ClaimAnswer, StatusAnswer, status_ok,
  conflict, status_failed,
}
use llmfit_dra.ModelClaim.Controller.Resolve.{resolve, resolve_key, keep_answer}
use llmfit_dra.ModelClaim.Controller.Resolve.Cache.{resolve_bounded}
use llmfit_dra.ModelClaim.Controller.Events.{event}
use llmfit_dra.ModelClaim.Controller.Events.Dedup.{event_bounded}
use llmfit_dra.ModelClaim.Controller.Status.{update_status, with_claim, write_status, status_reply}

-- At most 512 resolved tuples and 4096 messages.
abbrev pub IsBounded : Controller → Type 0
IsBounded c = (length c.resolve_cache ≤ 512) × (length c.last_event ≤ 4096)

-- An action that stays within the bounds.
unfoldable pub Bounding : {A : Type 0} → Act A → Type 0
Bounding m = (c : Controller) → IsBounded c → IsBounded (m c).1

pub and_then-Bounding :
    {A B : Type 0} (r : Reply A) (f : A → Act B)
    → ((a : A) → Bounding (f a))
    → Bounding (and_then r f)
unfolding Bounding
and_then-Bounding (ok a) f k c h = k a c h
and_then-Bounding (err e) f k c h = h

pub bind-Bounding :
    {A B : Type 0} (m : Act A) (f : A → Act B)
    → Bounding m
    → ((a : A) → Bounding (f a))
    → Bounding (m >>= f)
unfolding Bounding
bind-Bounding m f h k c b = and_then-Bounding (m c).0 f k (m c).1 (h c b)

pub pure-Bounding : {A : Type 0} (a : A) → Bounding (pure a)
unfolding Bounding
pure-Bounding a c h = h

pub fail-Bounding : (A : Type 0) (e : String) → Bounding (fail {A = A} e)
unfolding Bounding
fail-Bounding A e c h = h

pub call_for-Bounding :
    {A B : Type 0} (call : Call) (r : A) (f : A → Act B)
    → Bounding (f r)
    → Bounding (call_for call r >>= f)
unfolding Bounding
call_for-Bounding call r f h c b = h _ b

pub if-Bounding :
    {A : Type 0} (b : Bool) (m n : Act A) → Bounding m → Bounding n → Bounding (if b then m else n)
if-Bounding true m n h k = h
if-Bounding false m n h k = k

pub event-Bounding :
    (mc : ModelClaim) (kind reason message : String) → Bounding (event mc kind reason message)
unfolding Bounding event
event-Bounding mc kind reason message c h =
    (ground (arith, h.0), event_bounded mc kind reason message c h.1)

keep_answer-events :
    (now : ℕ) (key : String) (r : Reply Bounds) (c : Controller)
    → (keep_answer now key r c).last_event ≡ c.last_event
unfolding keep_answer
keep_answer-events now key (ok b) c = refl
keep_answer-events now key (err e) c = refl

pub resolve-Bounding :
    (env : Env) (model tps quant : String) (eff : ℤ) → Bounding (resolve env model tps quant eff)
unfolding Bounding resolve
resolve-Bounding env model tps quant eff c h =
    let key = resolve_key model tps quant eff in
    let answer = env.resolver model tps quant eff in
    (
      resolve_bounded env model tps quant eff c h.0,
      ground (
        arith,
        h.1,
        keep_answer-events env.now key answer (record_call (resolver_called model) c),
      ),
    )

pub status_reply-Bounding : (a : StatusAnswer) → Bounding (status_reply a)
unfolding Bounding status_reply
status_reply-Bounding status_ok c h = h
status_reply-Bounding conflict c h = h
status_reply-Bounding (status_failed e) c h = h

pub write_status-Bounding :
    (env : Env) (o : Option String) (s : ModelClaimStatus) → Bounding (write_status env o s)
unfolding Bounding write_status
write_status-Bounding env (some e) s c h = h
write_status-Bounding env none s c h = status_reply-Bounding env.update_status _ h

pub with_claim-Bounding :
    (env : Env) (mutate : ModelClaimStatus → ModelClaimStatus) (a : ClaimAnswer)
    → Bounding (with_claim env mutate a)
unfolding Bounding with_claim
with_claim-Bounding env mutate claim_missing c h = h
with_claim-Bounding env mutate (claim_failed e) c h = h
with_claim-Bounding env mutate (undecodable e) c h = h
with_claim-Bounding env mutate (claim_found mc) c h =
    write_status-Bounding env env.encode_error _ c h

pub update_status-Bounding :
    (env : Env) (name : String) (mutate : ModelClaimStatus → ModelClaimStatus)
    → Bounding (update_status env name mutate)
unfolding Bounding update_status
update_status-Bounding env name mutate c h = with_claim-Bounding env mutate env.get_claim _ h
