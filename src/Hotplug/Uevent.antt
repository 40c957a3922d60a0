-- ===== src/Hotplug/Uevent.antt =====
-- parseUevent, relevant and classifyReadErr of hotplug.go. A message is its bytes.
use llmfit_dra.Prelude.{
  ℕ, Option, none, some, List, [], ◌∷◌, Bool, true, false, ◌&&◌, ◌||◌, if◌then◌else◌, eqb,
}
use llmfit_dra.Prelude.Text.{codes}

abbrev pub Bytes : Type 0
Bytes = List ℕ

abbrev cons_byte : ℕ → List Bytes → List Bytes
cons_byte c [] = (c ∷ []) ∷ []
cons_byte c (w ∷ ws) = (c ∷ w) ∷ ws

-- `strings.Split` at the byte 0.
unfoldable pub split_zero : Bytes → List Bytes
split_zero [] = [] ∷ []
split_zero (c ∷ s) = let rest = split_zero s in if eqb c 0 then [] ∷ rest else cons_byte c rest

-- `strings.Contains(s, "@")`, and the part before the first "@".
unfoldable pub has_at : Bytes → Bool
has_at [] = false
has_at (c ∷ s) = eqb c b'@' || has_at s

unfoldable pub before_at : Bytes → Bytes
before_at [] = []
before_at (c ∷ s) = let rest = before_at s in if eqb c b'@' then [] else c ∷ rest

-- `strings.CutPrefix`
unfoldable pub cut_prefix : Bytes → Bytes → Option Bytes
cut_prefix [] s = some s
cut_prefix (c ∷ p) [] = none
cut_prefix (c ∷ p) (d ∷ s) = let rest = cut_prefix p s in if eqb c d then rest else none

pub record Uevent : Type 0 where
  pub action : Bytes
  pub subsystem : Bytes

-- The loop over the fields: the last SUBSYSTEM wins.
unfoldable pub subsystem_of : List Bytes → Bytes → Bytes
subsystem_of [] found = found
subsystem_of (f ∷ rest) found =
    subsystem_of rest (elim (cut_prefix (codes "SUBSYSTEM=") f) [ none ↦ found | some v ↦ v ])

unfoldable pub parse_fields : List Bytes → Option Uevent
unfolding has_at before_at subsystem_of
parse_fields [] = none
parse_fields (head ∷ fields) =
    if has_at head
    then some (record { action = before_at head; subsystem = subsystem_of fields [] })
    else none

-- `parseUevent`
unfoldable pub parse_uevent : Bytes → Option Uevent
unfolding parse_fields split_zero
parse_uevent buf = parse_fields (split_zero buf)

unfoldable pub same_bytes : Bytes → Bytes → Bool
same_bytes [] [] = true
same_bytes (c ∷ s) (d ∷ t) = eqb c d && same_bytes s t
same_bytes _ _ = false

-- `relevant`
unfoldable pub relevant : Uevent → Bool
relevant ev = same_bytes ev.subsystem (codes "drm") || same_bytes ev.subsystem (codes "accel")

-- The errors that `classifyReadErr` tells apart.
pub data ReadError : Type 0 where
  interrupted would_block no_buffers other_error : ReadError

pub data ReadAction : Type 0 where
  act_retry act_overrun act_fatal : ReadAction

unfoldable pub classify_read_err : ReadError → ReadAction
classify_read_err interrupted = act_retry
classify_read_err would_block = act_retry
classify_read_err no_buffers = act_overrun
classify_read_err other_error = act_fatal
