-- ===== src/Agent/Prepares.antt =====
-- The agent and its kubelet plugin: a claim on published devices is prepared.
use llmfit_dra.Prelude.{
  String, ◌≡◌, Option, none, some, List, [], ◌∷◌, Bool, true, false, not, ◌||◌, ◌==◌, if◌then◌else◌,
  arith, refl, is_some, Option-cases, ◌∙◌, any, all, All,
}
use llmfit_dra.Resource.{ResourceClaim, AllocationResult}
use llmfit_dra.ModelClaim.Backend.{driver_domain}
use llmfit_dra.Probe.{ProbeDevice}
use llmfit_dra.NodePlugin.Inventory.{Inventory, lookup_device}
use llmfit_dra.NodePlugin.Edits.{edits_for}
use llmfit_dra.NodePlugin.Prepare.{
  Item, item_of, Items, missing, items, add_item, new_nodes, collect, PrepareResult, prepared,
  prepare_failed, SpecDir, write_spec, after_write, finish_prepare, prepare_results, prepare_claim,
}
use llmfit_dra.Publisher.Names.{find_published}
use llmfit_dra.Agent.{Config, World, Agent}
use llmfit_dra.Agent.Cycles.{pool_devices}
use llmfit_dra.Agent.Lockstep.{InStep, reads_memory, after_cycles, after_cycles-InStep}

abbrev pub is_own : AllocationResult → Bool
is_own r = r.driver == driver_domain

abbrev pub is_prepared : PrepareResult → Bool
is_prepared (prepared told) = true
is_prepared (prepare_failed e) = false

abbrev is_found : Items → Bool
is_found (missing d) = false
is_found (items is) = true

abbrev has_items : Items → Bool
has_items (missing d) = false
has_items (items []) = false
has_items (items (i ∷ is)) = true

-- A result of another driver, or one whose device is in the inventory.
abbrev resolves : Inventory → AllocationResult → Bool
resolves inv r = not (is_own r) || is_some (lookup_device inv r.device)

add_item-found : (i : Item) (rest : Items) → is_found (add_item i rest) ≡ is_found rest
add_item-found i (missing d) = refl
add_item-found i (items is) = refl

add_item-items :
    (i : Item) (rest : Items) → is_found rest ≡ true → has_items (add_item i rest) ≡ true
add_item-items i (missing d) h = h
add_item-items i (items is) h = refl

-- The case of an own result in the loop.
abbrev chosen :
    Inventory
    → String
    → List String
    → AllocationResult
    → List AllocationResult
    → Option ProbeDevice
    → Items
chosen inv uid seen r rest none = missing r.device
chosen inv uid seen r rest (some dev) =
    add_item (item_of uid r dev (new_nodes seen (edits_for dev).device_nodes).0)
      (collect inv uid (new_nodes seen (edits_for dev).device_nodes).1 rest)

collect-chosen :
    (inv : Inventory) (uid : String) (seen : List String) (r : AllocationResult)
    (rest : List AllocationResult)
    → collect inv uid seen (r ∷ rest) ≡ (
        if is_own r
        then chosen inv uid seen r rest (lookup_device inv r.device)
        else collect inv uid seen rest)
unfolding collect
collect-chosen inv uid seen r rest = ground (arith, Option-cases (lookup_device inv r.device))

chosen-found :
    (inv : Inventory) (uid : String) (seen : List String) (r : AllocationResult)
    (rest : List AllocationResult) (o : Option ProbeDevice)
    → is_some o ≡ true
    → ((more : List String) → is_found (collect inv uid more rest) ≡ true)
    → is_found (chosen inv uid seen r rest o) ≡ true
      × has_items (chosen inv uid seen r rest o) ≡ true
chosen-found inv uid seen r rest none h every = absurd (ground arith)
chosen-found inv uid seen r rest (some dev) h every =
    (add_item-found _ _ ∙ every _, add_item-items _ _ (every _))

collect-found :
    (inv : Inventory) (uid : String) (seen : List String) (results : List AllocationResult)
    → all (resolves inv) results ≡ true
    → is_found (collect inv uid seen results) ≡ true
unfolding collect
collect-found inv uid seen [] h = refl
collect-found inv uid seen (r ∷ rest) h = ground (
  arith,
  collect-chosen inv uid seen r rest,
  collect-found inv uid seen rest,
  chosen-found inv uid seen r rest (lookup_device inv r.device),
  λ (more : List String). collect-found inv uid more rest,
)

collect-items :
    (inv : Inventory) (uid : String) (seen : List String) (results : List AllocationResult)
    → all (resolves inv) results ≡ true
    → any is_own results ≡ true
    → has_items (collect inv uid seen results) ≡ true
unfolding collect
collect-items inv uid seen [] h own = ground arith
collect-items inv uid seen (r ∷ rest) h own = ground (
  arith,
  collect-chosen inv uid seen r rest,
  collect-items inv uid seen rest,
  chosen-found inv uid seen r rest (lookup_device inv r.device),
  λ (more : List String). collect-found inv uid more rest,
)

finish-prepared :
    (inv : Inventory) (dir : SpecDir) (uid : String) (found : Items)
    → has_items found ≡ true
    → is_prepared (finish_prepare inv none dir uid found).0 ≡ true
unfolding finish_prepare after_write write_spec
finish-prepared inv dir uid (missing d) h = absurd (ground arith)
finish-prepared inv dir uid (items []) h = absurd (ground arith)
finish-prepared inv dir uid (items (i ∷ is)) h = refl

results-prepared :
    (inv : Inventory) (dir : SpecDir) (uid : String) (results : List AllocationResult)
    → all (resolves inv) results ≡ true
    → any is_own results ≡ true
    → is_prepared (prepare_results inv none dir uid (some results)).0 ≡ true
unfolding prepare_results
results-prepared inv dir uid results h own =
    finish-prepared inv dir uid (collect inv uid [] results)
      (collect-items inv uid [] results h own)

module _ {F : Type 0} (cfg : Config F) where
  -- A result of another driver, or one whose device is published.
  abbrev pub is_published : Agent F → AllocationResult → Bool
  is_published a r =
      not (is_own r) || is_some (find_published r.device (pool_devices cfg.node_name a.resources))

  published-resolve :
      (a : Agent F) (results : List AllocationResult)
      → InStep cfg a
      → all (is_published a) results ≡ true
      → all (resolves a.inventory) results ≡ true
  unfolding InStep
  published-resolve a [] step h = refl
  published-resolve a (r ∷ rest) step h =
      ground (arith, published-resolve a rest step, step r.device)

  -- After any cycles of the agent, none of which failed to read the size of the memory after a
  -- walk, a claim is prepared if it has an allocation from the driver, the driver's results all
  -- name published devices, and its file is written.
  pub prepare_claim-published :
      (history : List (World F)) (dir : SpecDir) (claim : ResourceClaim)
      (results : List AllocationResult)
      → All (λ w. reads_memory cfg w ≡ true) history
      → claim.allocation ≡ some results
      → all (is_published (after_cycles cfg history)) results ≡ true
      → any is_own results ≡ true
      → is_prepared (prepare_claim (after_cycles cfg history).inventory none dir claim).0 ≡ true
  unfolding prepare_claim
  prepare_claim-published history dir claim results read allocated published own = rw allocated (
      results-prepared (after_cycles cfg history).inventory dir claim.uid results
        (published-resolve (after_cycles cfg history) results (after_cycles-InStep cfg history read)
          published)
        own)
