-- ===== src/NodePlugin/Prepare/Outcome.antt =====
-- The outcome of a preparation: the file and the answer, or nothing.
use mathlib.Core.List
use llmfit_dra.Prelude.{
  String, Option, none, some, List, [], ◌∷◌, Bool, true, false, ◌||◌, any, ◌≡◌, refl, ap, sym,
  subst, ◌∙◌, arith,
}
use llmfit_dra.Prelude.Maps.{insert}
use llmfit_dra.Resource.{ResourceClaim, AllocationResult}
use llmfit_dra.NodePlugin.Inventory.{Inventory}
use llmfit_dra.NodePlugin.Edits.{CdiDevice}
use llmfit_dra.NodePlugin.Prepare.{
  among, PreparedDevice, PrepareError, PrepareResult, prepared, prepare_failed, Items, missing,
  items, collect, cdi_devices, rocm_ids, rocm_visibility, SpecDir, after_write, write_spec,
  finish_prepare, prepare_results, prepare_claim,
}
use llmfit_dra.NodePlugin.Prepare.Nodes.{
  apart, nodes_of, items_apart, ItemsTell, cdi_name, told_for, own_results, collect-apart,
  collect-tell, cdi_devices-nodes, cdi_devices-names,
}
use llmfit_dra.NodePlugin.Prepare.Paths.{ItemsHave, wants, collect-have}

-- What a successful preparation of these results means. The file has one device for each result,
-- with the name that the kubelet is told; a path is in it exactly if the device of a result needs it,
-- and is there once.
pub record IsServed (inv : Inventory) (uid : String) (own : List AllocationResult) (dir : SpecDir)
    (told : List PreparedDevice) (dir' : SpecDir) (devices : List CdiDevice) : Type 0 where
  pub written : dir' ≡ insert uid devices dir
  pub named : List.map (λ d. d.name) devices ≡ List.map (cdi_name uid) own
  pub reached : (p : String) → among p (nodes_of devices) ≡ any (wants inv p) own
  pub once : apart [] (nodes_of devices) ≡ true
  pub answered : told ≡ List.map (told_for uid) own

abbrev pub Served :
    Inventory → String → List AllocationResult → SpecDir → List PreparedDevice → SpecDir → Type 0
Served inv uid own dir told dir' =
    (devices : List CdiDevice) × IsServed inv uid own dir told dir' devices

told_of : PrepareResult → List PreparedDevice
told_of (prepared told) = told
told_of (prepare_failed e) = []

or-false : (a b : Bool) → (a || false) ≡ (b || false) → a ≡ b
or-false a b h = ground (arith, h)

finish-Served :
    (inv : Inventory) (answer : Option String) (dir : SpecDir) (uid : String)
    (own : List AllocationResult) (its : Items) (told : List PreparedDevice)
    → items_apart [] its ≡ true
    → ItemsTell uid own its
    → ((p : String) → ItemsHave false (any (wants inv p) own) p its)
    → (finish_prepare inv answer dir uid its).0 ≡ prepared told
    → Served inv uid own dir told (finish_prepare inv answer dir uid its).1
unfolding finish_prepare write_spec after_write told_of
finish-Served inv answer dir uid own (missing d) told h k m e = ground arith
finish-Served inv answer dir uid own (items []) told h k m e = ground arith
finish-Served inv (some err) dir uid own (items (i ∷ is)) told h k m e = ground arith
finish-Served inv none dir uid own (items (i ∷ is)) told h k m e =
    let visible = rocm_visibility inv (rocm_ids (i ∷ is)) in
    let nodes = cdi_devices-nodes visible (i ∷ is) in
    (
      cdi_devices visible (i ∷ is),
      record {
        written = refl;
        named = cdi_devices-names visible (i ∷ is) ∙ k.1;
        reached = λ p. ap (among p) nodes ∙ or-false _ _ (m p);
        once = ap (apart []) nodes ∙ h;
        answered = sym (ap told_of e) ∙ k.0;
      },
    )

results-Served :
    (inv : Inventory) (answer : Option String) (dir : SpecDir) (uid : String)
    (results : List AllocationResult) (o : Option (List AllocationResult))
    (told : List PreparedDevice)
    → o ≡ some results
    → (prepare_results inv answer dir uid o).0 ≡ prepared told
    → Served inv uid (own_results results) dir told (prepare_results inv answer dir uid o).1
unfolding prepare_results
results-Served inv answer dir uid results none told h e = ground arith
results-Served inv answer dir uid results (some rs) told h e =
    let same : rs ≡ results = ap (λ o. elim o [ none ↦ [] | some l ↦ l ]) h in
    subst
      (λ l.
        Served inv uid (own_results l) dir told (prepare_results inv answer dir uid (some rs)).1)
      same
      (finish-Served inv answer dir uid (own_results rs) (collect inv uid [] rs) told
        (collect-apart inv uid [] rs) (collect-tell inv uid [] rs)
        (λ p. collect-have inv uid p [] rs) e)

-- When a claim is prepared, its file has one CDI device for each of the driver's own allocation
-- results, in order, and exactly the device paths that the probed devices of these results need, each
-- once; and the kubelet is told of each result its request, its pool, its device and the qualified
-- name of its CDI device.
pub prepare_claim-Served :
    (inv : Inventory) (answer : Option String) (dir : SpecDir) (claim : ResourceClaim)
    (results : List AllocationResult) (told : List PreparedDevice)
    → claim.allocation ≡ some results
    → (prepare_claim inv answer dir claim).0 ≡ prepared told
    → Served inv claim.uid (own_results results) dir told (prepare_claim inv answer dir claim).1
unfolding prepare_claim
prepare_claim-Served inv answer dir claim results told h e =
    results-Served inv answer dir claim.uid results claim.allocation told h e

finish-failed :
    (inv : Inventory) (answer : Option String) (dir : SpecDir) (uid : String) (its : Items)
    (e : PrepareError)
    → (finish_prepare inv answer dir uid its).0 ≡ prepare_failed e
    → (finish_prepare inv answer dir uid its).1 ≡ dir
unfolding finish_prepare write_spec after_write
finish-failed inv answer dir uid (missing d) e h = refl
finish-failed inv answer dir uid (items []) e h = refl
finish-failed inv (some err) dir uid (items (i ∷ is)) e h = refl
finish-failed inv none dir uid (items (i ∷ is)) e h = ground arith

results-failed :
    (inv : Inventory) (answer : Option String) (dir : SpecDir) (uid : String)
    (o : Option (List AllocationResult)) (e : PrepareError)
    → (prepare_results inv answer dir uid o).0 ≡ prepare_failed e
    → (prepare_results inv answer dir uid o).1 ≡ dir
unfolding prepare_results
results-failed inv answer dir uid none e h = refl
results-failed inv answer dir uid (some rs) e h =
    finish-failed inv answer dir uid (collect inv uid [] rs) e h

-- A claim that is not prepared, whatever the reason, leaves the spec directory as it was.
pub prepare_claim-failed :
    (inv : Inventory) (answer : Option String) (dir : SpecDir) (claim : ResourceClaim)
    (e : PrepareError)
    → (prepare_claim inv answer dir claim).0 ≡ prepare_failed e
    → (prepare_claim inv answer dir claim).1 ≡ dir
unfolding prepare_claim
prepare_claim-failed inv answer dir claim e h =
    results-failed inv answer dir claim.uid claim.allocation e h
