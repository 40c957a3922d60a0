-- ===== src/ModelClaim/Controller/Watch/Notify.antt =====
-- The informers' handlers in `New`: which keys a notification puts on the queue.
use mathlib.Core.List.{◌++◌, map}
use llmfit_dra.Prelude.{
  String, some, List, [], ◌∷◌, Bool, true, false, ◌||◌, ◌≡◌, refl, ap, ◌∙◌, sym, subst,
  if◌then◌else◌, arith,
}
use llmfit_dra.Resource.{ResourceClaim}
use llmfit_dra.ModelClaim.Backend.{backend_for}
use llmfit_dra.ModelClaim.Satisfiable.Pools.{allocated_devices}
use llmfit_dra.ModelClaim.Controller.Watch.{
  Watched, claim_object, Stored, slice_relevant, claim_relevant, driver_for,
}
use llmfit_dra.ModelClaim.Controller.Watch.Claims.{claim_relevant-false}

-- A ModelClaim of the store: its key, and what the predicates read of it.
abbrev pub StoredClaim : Type 0
StoredClaim = String × Stored

abbrev pub objects : List StoredClaim → List Stored
objects = map (λ e. e.1)

-- `enqueueAll`: the keys that are added, in order.
unfoldable pub enqueue_all : List StoredClaim → List String
enqueue_all [] = []
enqueue_all ((key, obj) ∷ rest) = key ∷ enqueue_all rest

unfoldable pub enqueue_all_if : Bool → List StoredClaim → List String
unfolding enqueue_all
enqueue_all_if relevant store = if relevant then enqueue_all store else []

-- What the three informers report.
pub data Notification : Type 0 where
  model_claim_added : String → Notification
  model_claim_updated : String → Notification
  model_claim_deleted : String → Notification
  slice_added : Watched → Notification
  slice_updated : Watched → Watched → Notification
  slice_deleted : Watched → Notification
  claim_added : Watched → Notification
  claim_updated : Watched → Watched → Notification
  claim_deleted : Watched → Notification

-- The handlers, given the store at the time.
unfoldable pub notify : List StoredClaim → Notification → List String
unfolding enqueue_all_if
notify store (model_claim_added key) = key ∷ []
notify store (model_claim_updated key) = key ∷ []
notify store (model_claim_deleted key) = []
notify store (slice_added obj) = enqueue_all_if (slice_relevant (objects store) obj) store
notify store (slice_updated old obj) =
    enqueue_all_if (slice_relevant (objects store) old || slice_relevant (objects store) obj) store
notify store (slice_deleted obj) = enqueue_all_if (slice_relevant (objects store) obj) store
notify store (claim_added obj) = enqueue_all_if (claim_relevant (objects store) obj) store
notify store (claim_updated old obj) =
    enqueue_all_if (claim_relevant (objects store) old || claim_relevant (objects store) obj) store
notify store (claim_deleted obj) = enqueue_all_if (claim_relevant (objects store) obj) store

-- Nothing is added for a store that is not empty: so nothing was relevant.
pub quiet-irrelevant :
    (relevant : Bool) (xs : List StoredClaim) (c : StoredClaim) (ys : List StoredClaim)
    → enqueue_all_if relevant (xs ++ (c ∷ ys)) ≡ []
    → relevant ≡ false
unfolding enqueue_all_if
quiet-irrelevant false xs c ys h = refl
quiet-irrelevant true [] c ys h = absurd (ground arith)
quiet-irrelevant true (x ∷ xs) c ys h = absurd (ground arith)

pub objects-append :
    (xs : List StoredClaim) (c : StoredClaim) (ys : List StoredClaim)
    → objects (xs ++ (c ∷ ys)) ≡ objects xs ++ (c.1 ∷ objects ys)
objects-append [] c ys = refl
objects-append (x ∷ xs) c ys = ap (λ t. x.1 ∷ t) (objects-append xs c ys)

-- An update of a ResourceClaim that puts no key on the queue leaves the held devices as they are,
-- for the driver of every stored ModelClaim.
pub claim_updated-quiet :
    (xs ys : List StoredClaim) (key class target : String) (old new : ResourceClaim)
    (before after : List ResourceClaim)
    → notify
        (xs ++ ((key, some (class, target)) ∷ ys))
        (claim_updated (claim_object old) (claim_object new))
      ≡ []
    → allocated_devices (before ++ (old ∷ after)) (driver_for (backend_for class target))
      ≡ allocated_devices (before ++ (new ∷ after)) (driver_for (backend_for class target))
unfolding notify
claim_updated-quiet xs ys key class target old new before after h =
    let stored = objects xs ++ (some (class, target) ∷ objects ys) in
    let none_relevant =
      subst
        (λ os.
          (claim_relevant os (claim_object old) || claim_relevant os (claim_object new)) ≡ false)
        (objects-append xs (key, some (class, target)) ys)
        (quiet-irrelevant _ xs (key, some (class, target)) ys h) in
    claim_relevant-false (objects xs) (objects ys) class target old before after
      (ground (arith, none_relevant))
    ∙ sym (
        claim_relevant-false (objects xs) (objects ys) class target new before after
          (ground (arith, none_relevant)))
