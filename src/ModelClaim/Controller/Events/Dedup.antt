-- ===== src/ModelClaim/Controller/Events/Dedup.antt =====
-- The memory of the `event` method.
use llmfit_dra.Prelude.{String, ◌≤◌, ◌≡◌, arith, length, eq_refl}
use llmfit_dra.Prelude.Maps.{GoMap, lookup, lookup-insert_self}
use llmfit_dra.ModelClaim.Types.{ModelClaim}
use llmfit_dra.ModelClaim.Controller.Act.{Controller}
use llmfit_dra.ModelClaim.Controller.Events.{dedup_key, last_message, remember, event}

remember_lem :
    (key message : String) (events : GoMap String)
    → last_message key (remember key message events) ≡ message
unfolding remember lookup
remember_lem key message events = ground (arith, lookup-insert_self key message events, eq_refl key)

-- The same message for the same object and reason, right after it was reported, makes no call and
-- changes nothing, whatever its kind.
pub event_twice :
    (mc : ModelClaim) (kind kind' reason message : String) (c : Controller)
    → (event mc kind' reason message (event mc kind reason message c).1).1
      ≡ (event mc kind reason message c).1
unfolding event
event_twice mc kind kind' reason message c =
    let key = dedup_key mc reason in
    ground (arith, remember_lem key message c.last_event, eq_refl message)

-- A memory of events within 4096 entries stays within 4096 entries.
pub event_bounded :
    (mc : ModelClaim) (kind reason message : String) (c : Controller)
    → length c.last_event ≤ 4096
    → length (event mc kind reason message c).1.last_event ≤ 4096
unfolding event remember
event_bounded mc kind reason message c h = ground arith
