-- ===== src/ModelClaim/Controller/Verdict.antt =====
-- The last part of `reconcile`: the advisory satisfiability of the claim.
use Prim.Native.String.{◌++◌}
use llmfit_dra.Prelude.{String, some, ◌==◌, if◌then◌else◌, ltb}
use llmfit_dra.Prelude.Text.{decimal}
use llmfit_dra.Prelude.Int64.{ℤ, of_u64}
use llmfit_dra.ModelClaim.Backend.{
  Backend, backend_llmfit, backend_nvidia, backend_for, driver_domain, nvidia_driver_domain,
}
use llmfit_dra.ModelClaim.Bounds.{Bounds}
use llmfit_dra.ModelClaim.Types
use llmfit_dra.ModelClaim.Types.{
  ModelClaim, ModelClaimStatus, Template, ConditionStatus, condition_true, condition_false,
  condition_unknown, condition_resolved, condition_satisfiable,
}
use llmfit_dra.ModelClaim.Template.{compute_floor}
use llmfit_dra.ModelClaim.Satisfiable.Tally.{Candidates}
use llmfit_dra.ModelClaim.Satisfiable.Pools.{allocated_devices}
use llmfit_dra.ModelClaim.Satisfiable.Llmfit.{evaluate_slices}
use llmfit_dra.ModelClaim.Satisfiable.Nvidia.Scan.{evaluate_nvidia_slices}
use llmfit_dra.ModelClaim.Controller.Act.{Act, pure, ◌>>◌}
use llmfit_dra.ModelClaim.Controller.Env.{Env}
use llmfit_dra.ModelClaim.Controller.Events.{event}
use llmfit_dra.ModelClaim.Controller.Status.{set_condition, condition_reason, update_status}
use llmfit_dra.ModelClaim.Controller.Report.{bounds_text, device_class_of}

-- `satisfiableCondition`: status, reason and message.
unfoldable pub satisfiable_condition : Candidates → ConditionStatus × String × String
satisfiable_condition c =
    if ltb 0 c.devices
    then (if ltb 0 c.available
        then (
          condition_true,
          Types.reason_devices_available,
          decimal c.devices
              ++ " device(s) on "
              ++ decimal c.nodes
              ++ " node(s) satisfy the bounds ("
              ++ decimal c.available
              ++ " currently unallocated)",
        )
        else (
          condition_true,
          Types.reason_all_devices_held,
          decimal c.devices
              ++ " device(s) satisfy the bounds but 0 are unallocated (e.g. held by "
              ++ c.held_by
              ++ ") — pods will queue until a claim releases",
        ))
    else (condition_false, Types.reason_no_candidates, c.shortfall)

unfoldable pub evaluate_for : Backend → Env → Bounds → String → ℤ → Candidates
evaluate_for backend_llmfit env b class floor =
    evaluate_slices env.float env.slices (allocated_devices env.claims driver_domain) b class floor
evaluate_for backend_nvidia env b class floor =
    evaluate_nvidia_slices env.float env.quote env.slices
      (allocated_devices env.claims nvidia_driver_domain) b class floor env.boards

-- `evaluateCandidates`
unfoldable pub evaluate_candidates : Env → Bounds → String → ℤ → String → Candidates
unfolding evaluate_for
evaluate_candidates env b class floor target =
    evaluate_for (backend_for class target) env b class floor

-- Events on transitions only.
unfoldable pub report_transition :
    Env → ModelClaim → ConditionStatus × String × String → Act (Unit {0})
report_transition env mc (status, reason, msg) =
    if condition_reason env mc condition_satisfiable == reason
    then pure tt
    else event mc (elim status [ condition_false ↦ "Warning" | _ ↦ "Normal" ]) reason msg

-- The last status write.
unfoldable pub mark_resolved :
    Env
    → String
    → ModelClaim
    → Bounds
    → Candidates
    → ConditionStatus × String × String
    → ModelClaimStatus
    → ModelClaimStatus
unfolding bounds_text
mark_resolved env name mc b cands (status, reason, msg) s =
    set_condition env mc.generation condition_satisfiable status reason msg (
      set_condition env mc.generation condition_resolved condition_true Types.reason_resolved
        (b.model ++ " @ " ++ b.quant ++ ": " ++ bounds_text b)
        (record s {
          observed_generation = mc.generation;
          resolved = some (record {
            memory_gi = of_u64 b.memory_gi;
            min_bandwidth_gbs = of_u64 b.min_bandwidth_gbs;
            quant = b.quant;
            weights_gb = b.weights_gb;
            resolver_version = b.resolver_version;
          });
          template_ref = some name;
          candidates = some (record {
            devices = cands.devices;
            nodes = cands.nodes;
            available = cands.available;
          });
        }))

unfoldable pub report_satisfiable : Env → String → ModelClaim → Bounds → Act (Unit {0})
unfolding report_transition
report_satisfiable env name mc b =
    let cands =
      evaluate_candidates env b (device_class_of mc) (compute_floor mc) mc.spec.target_driver in
    let condition = satisfiable_condition cands in
    do
      report_transition env mc condition
      update_status env name (mark_resolved env name mc b cands condition)
