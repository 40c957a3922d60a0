-- ===== src/ModelClaim/Controller/Report.antt =====
-- The branches of `reconcile` that end a pass with a status that is not resolved.
use Prim.Native.String.{◌++◌}
use llmfit_dra.Prelude.{String, ◌==◌, if◌then◌else◌}
use llmfit_dra.Prelude.Text.{decimal}
use llmfit_dra.ModelClaim.Backend.{driver_domain}
use llmfit_dra.ModelClaim.Bounds.{Bounds}
use llmfit_dra.ModelClaim.Types
use llmfit_dra.ModelClaim.Types.{
  ModelClaim, ModelClaimStatus, Template, ConditionStatus, condition_true, condition_false,
  condition_unknown, condition_resolved, condition_satisfiable,
}
use llmfit_dra.ModelClaim.Controller.Act.{Act, fail, ◌>>◌}
use llmfit_dra.ModelClaim.Controller.Env.{Env}
use llmfit_dra.ModelClaim.Controller.Events.{event}
use llmfit_dra.ModelClaim.Controller.Status.{set_condition, update_status}

abbrev pub device_class_of : ModelClaim → String
device_class_of mc =
    if mc.spec.device_class_name == "" then driver_domain else mc.spec.device_class_name

unfoldable pub bounds_text : Bounds → String
bounds_text b =
    "memory>=" ++ decimal b.memory_gi ++ "Gi, bandwidth>=" ++ decimal b.min_bandwidth_gbs ++ "GB/s"

-- The status write of the three terminal branches: Resolved is False, Satisfiable is Unknown.
unfoldable pub mark_unresolved :
    Env → ModelClaim → String → String → String → ModelClaimStatus → ModelClaimStatus
mark_unresolved env mc reason resolved_msg satisfiable_msg s =
    set_condition env mc.generation condition_satisfiable condition_unknown reason satisfiable_msg
      (set_condition env mc.generation condition_resolved condition_false reason resolved_msg s)

unfoldable pub reject_model : Env → String → ModelClaim → Act (Unit {0})
reject_model env name mc =
    let msg =
      "spec.model "
      ++ env.quote mc.spec.model
      ++ " is not a valid model reference (want org/name or name, e.g. Qwen/Qwen3-30B-A3B)" in
    do
      event mc "Warning" Types.reason_invalid_model msg
      update_status env name
          (mark_unresolved env mc Types.reason_invalid_model msg "model not resolved")

unfoldable pub report_unresolved : Env → String → ModelClaim → String → Act (Unit {0})
report_unresolved env name mc e = do
  event mc "Warning" Types.reason_resolve_failed e
  update_status env name (
      mark_unresolved env mc Types.reason_resolve_failed e "bounds unavailable while resolve fails")
  fail ("resolving model " ++ env.quote mc.spec.model ++ ": " ++ e)

unfoldable pub report_conflict : Env → String → ModelClaim → Act (Unit {0})
report_conflict env name mc =
    let msg =
      "a ResourceClaimTemplate named "
      ++ env.quote name
      ++ " already exists and is not managed by this ModelClaim; rename the ModelClaim or delete the template" in
    do
      event mc "Warning" Types.reason_template_conflict msg
      update_status env name (
          mark_unresolved env mc Types.reason_template_conflict msg
            "template not managed by this ModelClaim")
