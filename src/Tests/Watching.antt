-- ===== src/Tests/Watching.antt =====
-- A claim that nothing evaluates against.
use llmfit_dra.Prelude.{◌≡◌, refl, true, Option, none, some, List, [], ◌∷◌}
use llmfit_dra.Prelude.Int64.{pos}
use llmfit_dra.ModelClaim.Controller.Act.{err}
use llmfit_dra.ModelClaim.Controller.Env.{Env, not_found}
use llmfit_dra.ModelClaim.Controller.Verdict.{evaluate_candidates}
use llmfit_dra.ModelClaim.Controller.Watch.{slice_object, slice_relevant}
use llmfit_dra.ModelClaim.Controller.Watch.Notify.{slice_updated}
use llmfit_dra.ModelClaim.Controller.Watch.Slices.{with_slices, slice_updated-quiet}
use llmfit_dra.Tests.Fixtures.{env_of, two_slices, bounds_of, gpu}
use llmfit_dra.Resource.{ResourceClaim, AllocationResult, ResourceSlice, Device}
use llmfit_dra.ModelClaim.Backend.{backend_for}
use llmfit_dra.ModelClaim.Satisfiable.Pools.{allocated_devices}
use llmfit_dra.ModelClaim.Controller.Watch.{
  claim_object, claim_relevant, claim_of_interest, driver_for, nvidia_targets_present,
}
use llmfit_dra.ModelClaim.Controller.Watch.Notify.{
  notify, claim_updated, enqueue_all_if, claim_updated-quiet,
}

-- A claim, and one for a device of NVIDIA's driver.
abbrev claim_with : Option (List AllocationResult) → ResourceClaim
claim_with found = record {
  namespace = "default";
  name = "trainer";
  uid = "77aa";
  allocation = found;
}

abbrev nvidia_claim : ResourceClaim
nvidia_claim = claim_with (
    some (
      record { request = "gpu"; driver = "gpu.nvidia.com"; pool = "node-b"; device = "gpu-0" }
      ∷ []))

abbrev free_claim : ResourceClaim
free_claim = claim_with none

-- The one stored ModelClaim is of the llmfit backend.
no_keys :
    notify
      (("default/chat", some ("llmfit.ai", "")) ∷ [])
      (claim_updated (claim_object nvidia_claim) (claim_object free_claim))
    ≡ []
unfolding notify enqueue_all_if claim_relevant claim_of_interest nvidia_targets_present backend_for
no_keys = refl

claim_updated-quiet_example :
    allocated_devices (nvidia_claim ∷ []) (driver_for (backend_for "llmfit.ai" ""))
    ≡ allocated_devices (free_claim ∷ []) (driver_for (backend_for "llmfit.ai" ""))
claim_updated-quiet_example =
    claim_updated-quiet [] [] "default/chat" "llmfit.ai" "" nvidia_claim free_claim [] [] no_keys

abbrev nvidia_slice : List Device → ResourceSlice
nvidia_slice devices = record {
  driver = "gpu.nvidia.com";
  pool_name = "node-b";
  pool_generation = pos 1;
  node_name = some "node-b";
  devices = devices;
}

no_keys_for_slice :
    notify (("default/chat", some ("llmfit.ai", "")) ∷ []) (
      slice_updated
        (slice_object (nvidia_slice []))
        (slice_object (nvidia_slice (gpu "gpu-0" 80 ∷ []))))
    ≡ []
unfolding notify enqueue_all_if slice_relevant nvidia_targets_present backend_for
no_keys_for_slice = refl

abbrev env : Env
env = env_of (err "not asked") not_found (λ t mc. true)

slice_updated-quiet_example :
    evaluate_candidates
      (with_slices env (nvidia_slice [] ∷ two_slices))
      (bounds_of 8 100)
      "llmfit.ai"
      (pos 0)
      ""
    ≡ evaluate_candidates
        (with_slices env (nvidia_slice (gpu "gpu-0" 80 ∷ []) ∷ two_slices))
        (bounds_of 8 100)
        "llmfit.ai"
        (pos 0)
        ""
slice_updated-quiet_example =
    slice_updated-quiet [] [] "default/chat" "llmfit.ai" "" (nvidia_slice [])
      (nvidia_slice (gpu "gpu-0" 80 ∷ [])) [] two_slices env (bounds_of 8 100) (pos 0)
      no_keys_for_slice
