-- ===== src/ModelClaim/Controller/Watch.antt =====
-- Which objects of the informers enqueue the ModelClaims: `sliceRelevant`, `claimRelevant` and
-- `nvidiaTargetsPresent`.
pub mod Claims
pub mod Notify
pub mod Slices
use llmfit_dra.Prelude.{String, Option, none, some, List, Bool, true, false, ◌&&◌, ◌||◌, ◌==◌, any}
use llmfit_dra.Resource.{ResourceSlice, ResourceClaim}
use llmfit_dra.ModelClaim.Backend.{
  Backend, backend_llmfit, backend_nvidia, backend_for, driver_domain, nvidia_driver_domain,
}

-- The object of a notification; a tombstone holds the last known one.
pub data Watched : Type 0 where
  slice_object : ResourceSlice → Watched
  claim_object : ResourceClaim → Watched
  tombstone : Watched → Watched
  other_object : Watched

-- An object of the ModelClaim store: its class and its target, `none` if it is not unstructured.
abbrev pub Stored : Type 0
Stored = Option (String × String)

abbrev pub is_nvidia : Backend → Bool
is_nvidia backend_llmfit = false
is_nvidia backend_nvidia = true

abbrev pub selects_nvidia : Stored → Bool
selects_nvidia none = false
selects_nvidia (some (class, target)) = is_nvidia (backend_for class target)

unfoldable pub nvidia_targets_present : List Stored → Bool
nvidia_targets_present stored = any selects_nvidia stored

abbrev pub driver_relevant : List Stored → String → Bool
driver_relevant stored driver =
    driver == driver_domain || driver == nvidia_driver_domain && nvidia_targets_present stored

slice_of_interest : List Stored → Watched → Bool
slice_of_interest stored (slice_object s) = driver_relevant stored s.driver
slice_of_interest stored _ = false

unfoldable pub claim_of_interest : List Stored → Watched → Bool
claim_of_interest stored (claim_object c) = elim c.allocation [
  | none ↦ false
  | some results ↦ any (λ r. driver_relevant stored r.driver) results
]
claim_of_interest stored _ = false

-- A tombstone is opened once.
abbrev pub opened : Watched → Watched
opened (tombstone obj) = obj
opened obj = obj

unfoldable pub slice_relevant : List Stored → Watched → Bool
unfolding slice_of_interest
slice_relevant stored obj = slice_of_interest stored (opened obj)

unfoldable pub claim_relevant : List Stored → Watched → Bool
unfolding claim_of_interest
claim_relevant stored obj = claim_of_interest stored (opened obj)

-- The driver whose devices a stored ModelClaim is evaluated against.
abbrev pub driver_for : Backend → String
driver_for backend_llmfit = driver_domain
driver_for backend_nvidia = nvidia_driver_domain
