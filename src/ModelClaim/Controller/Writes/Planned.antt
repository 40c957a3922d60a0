-- ===== src/ModelClaim/Controller/Writes/Planned.antt =====
-- What a pass writes: the plan, without the events and the status writes around it.
use llmfit_dra.Prelude.{
  String, Option, none, some, List, [], ◌∷◌, Bool, true, false, ◌≡◌, refl, ◌∙◌, ap, sym,
  if◌then◌else◌,
}
use mathlib.Core.List
use mathlib.Core.List.{append-nil, append_assoc}
use llmfit_dra.ModelClaim.Bounds.{Bounds}
use llmfit_dra.ModelClaim.Types.{ModelClaim, Template}
use llmfit_dra.ModelClaim.Template.{template_needs_update}
use llmfit_dra.ModelClaim.Controller.Act.{
  Act, Call, Controller, ◌>>=◌, record_call, template_created, template_updated, template_deleted,
  call_for,
}
use llmfit_dra.ModelClaim.Controller.Env.{
  Env, GetAnswer, not_found, found, get_failed, UpdateAnswer, updated, invalid, update_failed,
}
use llmfit_dra.ModelClaim.Controller.Sync.{
  Synced, in_sync, foreign, sync_template, create_missing, succeed_or, apply_desired, after_create,
  after_delete, after_update, finish_update, update_drifted,
}
use llmfit_dra.ModelClaim.Controller.Writes.{
  writes, is_template_write, writes-record_call, IsQuiet, and_then-IsQuiet, bind-IsQuiet,
  event-IsQuiet,
}
use llmfit_dra.ModelClaim.Controller.Writes.Quiet.{
  succeed_or-IsQuiet, pure-IsQuiet, fail-IsQuiet, report_conflict-IsQuiet, after_create-IsQuiet,
}

-- The writes that the state of the template calls for: none for a template of another owner or one
-- that is up to date; a replacement only after the API server has refused the update as invalid.
abbrev pub replacement : Env → String → Template → UpdateAnswer → List Call
replacement env name desired updated = []
replacement env name desired (update_failed e) = []
replacement env name desired invalid =
    template_deleted name
    ∷ (elim env.delete_template [ none ↦ template_created desired ∷ [] | some e ↦ [] ])

abbrev pub planned : Env → String → ModelClaim → Template → GetAnswer → List Call
planned env name mc desired not_found = template_created desired ∷ []
planned env name mc desired (get_failed e) = []
planned env name mc desired (found live) =
    if env.is_controlled_by live mc
    then (if template_needs_update live desired
        then template_updated (apply_desired live desired)
          ∷ replacement env name desired env.update_template
        else [])
    else []

-- The action writes exactly these.
unfoldable pub Writes : {A : Type 0} → Act A → List Call → Type 0
Writes m ws = (c : Controller) → writes (m c).1 ≡ List.◌++◌ (writes c) ws

pub quiet-Writes : {A : Type 0} (m : Act A) → IsQuiet m → Writes m []
unfolding Writes IsQuiet
quiet-Writes m h c = h c ∙ sym (append-nil (writes c))

-- A write, then the action on its answer.
pub call-Writes :
    {A B : Type 0} (call : Call) (r : A) (f : A → Act B) (ws : List Call)
    → is_template_write call ≡ true
    → Writes (f r) ws
    → Writes (call_for call r >>= f) (call ∷ ws)
unfolding Writes
call-Writes call r f ws h k c =
    k (record_call call c)
    ∙ (ap (λ l. List.◌++◌ l ws)
          (writes-record_call call c
            ∙ ap (λ b. List.◌++◌ (writes c) (if b then call ∷ [] else [])) h)
        ∙ append_assoc (writes c) (call ∷ []) ws)

pub then-Writes :
    {A B : Type 0} (m : Act A) (f : A → Act B) (ws : List Call)
    → Writes m ws
    → ((a : A) → IsQuiet (f a))
    → Writes (m >>= f) ws
unfolding Writes IsQuiet
then-Writes m f ws h k c = and_then-IsQuiet (m c).0 f k (m c).1 ∙ h c

pub create_missing-Writes :
    (env : Env) (name : String) (mc : ModelClaim) (b : Bounds) (desired : Template)
    → Writes (create_missing env name mc b desired) (template_created desired ∷ [])
unfolding create_missing is_template_write
create_missing-Writes env name mc b desired =
    call-Writes (template_created desired) env.create_template (after_create name mc b) [] refl
      (quiet-Writes _ (after_create-IsQuiet name mc b env.create_template))

pub after_delete-Writes :
    (env : Env) (desired : Template) (o : Option String)
    → Writes
        (after_delete env desired o)
        (elim o [ none ↦ template_created desired ∷ [] | some e ↦ [] ])
unfolding after_delete is_template_write
after_delete-Writes env desired (some e) = quiet-Writes _ (fail-IsQuiet (Unit {0}) _)
after_delete-Writes env desired none =
    call-Writes (template_created desired) env.create_template (succeed_or "recreating template: ")
      [] refl (quiet-Writes _ (succeed_or-IsQuiet _ env.create_template))

pub after_update-Writes :
    (env : Env) (name : String) (desired : Template) (a : UpdateAnswer)
    → Writes (after_update env name desired a) (replacement env name desired a)
unfolding after_update is_template_write
after_update-Writes env name desired updated = quiet-Writes _ (pure-IsQuiet tt)
after_update-Writes env name desired (update_failed e) = quiet-Writes _ (fail-IsQuiet (Unit {0}) _)
after_update-Writes env name desired invalid =
    call-Writes (template_deleted name) env.delete_template (after_delete env desired) _ refl
      (after_delete-Writes env desired env.delete_template)

pub finish_update-Writes :
    (env : Env) (name : String) (mc : ModelClaim) (b : Bounds) (desired : Template)
    (a : UpdateAnswer)
    → Writes (finish_update env name mc b desired a) (replacement env name desired a)
unfolding finish_update
finish_update-Writes env name mc b desired a =
    then-Writes _ _ _ (after_update-Writes env name desired a)
      (λ _. bind-IsQuiet _ _ (event-IsQuiet mc _ _ _) (λ _. pure-IsQuiet in_sync))

pub update_drifted-Writes :
    (env : Env) (name : String) (mc : ModelClaim) (b : Bounds) (live desired : Template)
    → Writes (update_drifted env name mc b live desired) (
        template_updated (apply_desired live desired)
        ∷ replacement env name desired env.update_template)
unfolding update_drifted is_template_write
update_drifted-Writes env name mc b live desired =
    call-Writes (template_updated (apply_desired live desired)) env.update_template
      (finish_update env name mc b desired) _ refl
      (finish_update-Writes env name mc b desired env.update_template)

pub if-Writes :
    {A : Type 0} (b : Bool) (m n : Act A) (v w : List Call)
    → Writes m v
    → Writes n w
    → Writes (if b then m else n) (if b then v else w)
if-Writes true m n v w h k = h
if-Writes false m n v w h k = k

pub sync_template-Writes :
    (env : Env) (name : String) (mc : ModelClaim) (b : Bounds) (desired : Template) (a : GetAnswer)
    → Writes (sync_template env name mc b desired a) (planned env name mc desired a)
unfolding sync_template
sync_template-Writes env name mc b desired not_found = create_missing-Writes env name mc b desired
sync_template-Writes env name mc b desired (get_failed e) = quiet-Writes _ (fail-IsQuiet Synced _)
sync_template-Writes env name mc b desired (found live) =
    if-Writes _ _ _ _ _
      (if-Writes _ _ _ _ _ (update_drifted-Writes env name mc b live desired)
        (quiet-Writes _ (pure-IsQuiet in_sync)))
      (quiet-Writes _
        (bind-IsQuiet _ _ (report_conflict-IsQuiet env name mc) (λ _. pure-IsQuiet foreign)))
