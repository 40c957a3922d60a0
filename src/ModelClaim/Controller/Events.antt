-- ===== src/ModelClaim/Controller/Events.antt =====
-- The `event` method: consecutive duplicates per object and reason are suppressed.
pub mod Dedup
use Prim.Native.String.{◌++◌}
use llmfit_dra.Prelude.{String, none, some, [], ◌∷◌, ◌==◌, if◌then◌else◌, ltb, length}
use llmfit_dra.Prelude.Maps.{GoMap, lookup, insert}
use llmfit_dra.ModelClaim.Types.{ModelClaim}
use llmfit_dra.ModelClaim.Controller.Act.{Act, event_created, ok, record_call}

abbrev pub dedup_key : ModelClaim → String → String
dedup_key mc reason = mc.namespace ++ "/" ++ mc.name ++ "/" ++ reason

-- A missing entry reads as "".
abbrev pub last_message : String → GoMap String → String
last_message key events = elim (lookup key events) [ none ↦ "" | some m ↦ m ]

unfoldable pub remember : String → String → GoMap String → GoMap String
remember key message events =
    let written = insert key message events in
    if ltb 4096 (length written) then (key, message) ∷ [] else written

unfoldable pub event : ModelClaim → String → String → String → Act (Unit {0})
event mc kind reason message c =
    let key = dedup_key mc reason in
    if last_message key c.last_event == message then (ok tt, c) else (
      ok tt,
      record_call (event_created (record { kind = kind; reason = reason; message = message }))
          (record c { last_event = remember key message c.last_event }),
    )
