-- ===== src/ModelClaim/Controller/Watch/Claims.antt =====
-- claimRelevant, and what AllocatedDevices reads of a claim that it passes over.
use mathlib.Core.List
use llmfit_dra.Prelude.{
  String, Option, none, some, List, [], ◌∷◌, Bool, true, false, ◌&&◌, ◌||◌, ◌==◌, ◌≡◌, refl, ap,
  ◌∙◌, sym, arith, any, any-append, eq_iff,
}
use llmfit_dra.Prelude.Maps.{GoMap}
use llmfit_dra.Resource.{ResourceClaim, AllocationResult}
use llmfit_dra.ModelClaim.Backend.{
  Backend, backend_llmfit, backend_nvidia, backend_for, driver_domain, nvidia_driver_domain,
}
use llmfit_dra.ModelClaim.Satisfiable.Pools.{
  hold_results, hold_claim, hold_claims, allocated_devices,
}
use llmfit_dra.ModelClaim.Controller.Watch.{
  Stored, claim_object, claim_relevant, claim_of_interest, driver_relevant, driver_for, is_nvidia,
  nvidia_targets_present, selects_nvidia,
}

hold_results_none :
    (p : String → Bool) (driver holder : String) (results : List AllocationResult)
    (held : GoMap String)
    → p driver ≡ true
    → any (λ r. p r.driver) results ≡ false
    → hold_results driver holder results held ≡ held
unfolding hold_results
hold_results_none p driver holder [] held h k = refl
hold_results_none p driver holder (r ∷ rest) held h k =
    ground (arith, eq_iff r.driver driver, hold_results_none p driver holder rest held h)

hold_claim_none :
    (stored : List Stored) (driver : String) (rc : ResourceClaim) (held : GoMap String)
    → driver_relevant stored driver ≡ true
    → claim_relevant stored (claim_object rc) ≡ false
    → hold_claim driver rc rc.allocation held ≡ held
unfolding claim_relevant claim_of_interest hold_claim
hold_claim_none stored driver rc held h k = allocation_none rc.allocation k
  where
    allocation_none :
        (o : Option (List AllocationResult))
        → (elim o as (λ _. Bool) [
          | none ↦ false
          | some results ↦ any (λ r. driver_relevant stored r.driver) results
        ])
          ≡ false
        → hold_claim driver rc o held ≡ held
    allocation_none none e = refl
    allocation_none (some results) e =
        hold_results_none (driver_relevant stored) driver _ results held h e

hold_claims-append :
    (driver : String) (before after : List ResourceClaim) (held : GoMap String)
    → hold_claims driver (List.◌++◌ before after) held
      ≡ hold_claims driver after (hold_claims driver before held)
unfolding hold_claims
hold_claims-append driver [] after held = refl
hold_claims-append driver (c ∷ before) after held = hold_claims-append driver before after _

driver_for-relevant :
    (k : Backend) (present : Bool)
    → (is_nvidia k ≡ true → present ≡ true)
    → (driver_for k == driver_domain || driver_for k == nvidia_driver_domain && present) ≡ true
driver_for-relevant backend_llmfit present h = refl
driver_for-relevant backend_nvidia present h = ground (arith, h refl)

pub stored_relevant :
    (xs ys : List Stored) (class target : String)
    → driver_relevant
        (List.◌++◌ xs (some (class, target) ∷ ys))
        (driver_for (backend_for class target))
      ≡ true
unfolding nvidia_targets_present
stored_relevant xs ys class target =
    driver_for-relevant (backend_for class target) _
      (λ h. ground (arith, any-append selects_nvidia xs (some (class, target) ∷ ys)))

-- A ResourceClaim that claimRelevant passes over holds nothing that a stored ModelClaim is evaluated
-- against: without it the devices held for the driver of that ModelClaim are the same.
pub claim_relevant-false :
    (xs ys : List Stored) (class target : String) (rc : ResourceClaim)
    (before after : List ResourceClaim)
    → claim_relevant (List.◌++◌ xs (some (class, target) ∷ ys)) (claim_object rc) ≡ false
    → allocated_devices (List.◌++◌ before (rc ∷ after)) (driver_for (backend_for class target))
      ≡ allocated_devices (List.◌++◌ before after) (driver_for (backend_for class target))
unfolding allocated_devices
claim_relevant-false xs ys class target rc before after h =
    let driver = driver_for (backend_for class target) in
    let held = hold_claims driver before [] in
    hold_claims-append driver before (rc ∷ after) []
    ∙ (ap (hold_claims driver after) (
          hold_claim_none (List.◌++◌ xs (some (class, target) ∷ ys)) driver rc held
            (stored_relevant xs ys class target) h)
        ∙ sym (hold_claims-append driver before after []))
