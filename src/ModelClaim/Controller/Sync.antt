-- ===== src/ModelClaim/Controller/Sync.antt =====
-- The part of `reconcile` that brings the ResourceClaimTemplate of the claim up to date.
use Prim.Native.String.{◌++◌}
use llmfit_dra.Prelude.{String, Option, none, some, [], ◌∷◌, if◌then◌else◌}
use llmfit_dra.Prelude.Maps.{GoMap, insert}
use llmfit_dra.ModelClaim.Backend.{Backend, backend_llmfit, backend_nvidia, backend_for}
use llmfit_dra.ModelClaim.Bounds.{Bounds}
use llmfit_dra.ModelClaim.Types.{ModelClaim, Template}
use llmfit_dra.ModelClaim.Template.{template_needs_update}
use llmfit_dra.ModelClaim.Controller.Act.{
  Act, pure, fail, call_for, ◌>>=◌, ◌>>◌, template_created, template_updated, template_deleted,
}
use llmfit_dra.ModelClaim.Controller.Env.{
  Env, GetAnswer, not_found, found, get_failed, UpdateAnswer, updated, invalid, update_failed,
}
use llmfit_dra.ModelClaim.Controller.Events.{event}
use llmfit_dra.ModelClaim.Controller.Report.{report_conflict, bounds_text, device_class_of}

-- Whether the pass goes on to the satisfiability of the claim.
pub data Synced : Type 0 where
  in_sync foreign : Synced

target_note : Backend → String
target_note backend_llmfit = ""
target_note backend_nvidia = ", target gpu.nvidia.com (derived-bandwidth model)"

unfoldable pub succeed_or : String → Option String → Act (Unit {0})
succeed_or what none = pure tt
succeed_or what (some e) = fail (what ++ e)

unfoldable pub after_create : String → ModelClaim → Bounds → Option String → Act Synced
unfolding bounds_text target_note succeed_or
after_create name mc b answer = do
  succeed_or "creating template: " answer
  event mc "Normal" "TemplateCreated" (
      "ResourceClaimTemplate "
      ++ name
      ++ ": "
      ++ bounds_text b
      ++ " ("
      ++ b.quant
      ++ ")"
      ++ target_note (backend_for (device_class_of mc) mc.spec.target_driver))
  pure in_sync

unfoldable pub create_missing : Env → String → ModelClaim → Bounds → Template → Act Synced
create_missing env name mc b desired = do
  answer ← call_for (template_created desired) env.create_template
  after_create name mc b answer

unfoldable pub merge_annotations : GoMap String → GoMap String → GoMap String
merge_annotations live [] = live
merge_annotations live ((k, v) ∷ rest) = merge_annotations (insert k v live) rest

-- `updated`: the live template with the desired spec and annotations.
unfoldable pub apply_desired : Template → Template → Template
unfolding merge_annotations
apply_desired live desired = record live {
  requests = desired.requests;
  claim_config = desired.claim_config;
  annotations = merge_annotations live.annotations desired.annotations;
}

-- After an update of an immutable spec: recreate under the same name.
unfoldable pub after_delete : Env → Template → Option String → Act (Unit {0})
after_delete env desired (some e) = fail ("deleting immutable template for recreate: " ++ e)
after_delete env desired none = do
  created ← call_for (template_created desired) env.create_template
  succeed_or "recreating template: " created

unfoldable pub after_update : Env → String → Template → UpdateAnswer → Act (Unit {0})
after_update env name desired updated = pure tt
after_update env name desired (update_failed e) = fail ("updating template: " ++ e)
after_update env name desired invalid = do
  deleted ← call_for (template_deleted name) env.delete_template
  after_delete env desired deleted

unfoldable pub finish_update :
    Env → String → ModelClaim → Bounds → Template → UpdateAnswer → Act Synced
unfolding bounds_text
finish_update env name mc b desired answer = do
  after_update env name desired answer
  event mc "Normal" "TemplateUpdated"
      ("bounds now " ++ bounds_text b ++ " (resolver " ++ b.resolver_version ++ ")")
  pure in_sync

unfoldable pub update_drifted :
    Env → String → ModelClaim → Bounds → Template → Template → Act Synced
update_drifted env name mc b live desired = do
  answer ← call_for (template_updated (apply_desired live desired)) env.update_template
  finish_update env name mc b desired answer

-- The `switch` on the answer of the GET.
unfoldable pub sync_template :
    Env → String → ModelClaim → Bounds → Template → GetAnswer → Act Synced
sync_template env name mc b desired not_found = create_missing env name mc b desired
sync_template env name mc b desired (get_failed e) = fail ("getting template: " ++ e)
sync_template env name mc b desired (found live) =
    if env.is_controlled_by live mc
    then (if template_needs_update live desired
        then update_drifted env name mc b live desired
        else pure in_sync)
    else (do report_conflict env name mc; pure foreign)
