-- ===== src/NodePlugin/Serve/Accounts.antt =====
-- What the counters of the node plugin tell of its calls.
use mathlib.Core.List.{map}
use llmfit_dra.Prelude.{
  String, ℕ, ◌+◌, Option, none, some, List, [], ◌∷◌, Bool, true, false, ◌≡◌, refl, length, count,
  ap, ◌∙◌, if◌then◌else◌,
}
use llmfit_dra.Prelude.Maps.{GoMap, has_key}
use llmfit_dra.Resource.{ResourceClaim}
use llmfit_dra.Observe.Counters.{Metrics}
use llmfit_dra.NodePlugin.Inventory.{Inventory}
use llmfit_dra.NodePlugin.Prepare.{
  no_allocation, device_missing, foreign_only, cdi_write, PrepareResult, prepared, prepare_failed,
  SpecDir, prepare_claim, prepare_claims,
}
use llmfit_dra.NodePlugin.Specs.{
  remove_spec, gc_orphaned_specs, remove_orphans, live_uids, spec_uids,
}
use llmfit_dra.NodePlugin.Serve.{
  Batch, prepare_resource_claims, collect_orphans, gc_at_start, note_removal,
}

-- How a claim's preparation ends. It does not depend on the directory.
abbrev pub outcome : Inventory → (String → Option String) → ResourceClaim × ℕ → PrepareResult
outcome inv answers c = (prepare_claim inv (answers c.0.uid) [] c.0).0

-- The outcomes that the help text of prepare_total names.
abbrev pub is_ok : PrepareResult → Bool
is_ok (prepared told) = true
is_ok (prepare_failed e) = false

abbrev pub is_unallocated : PrepareResult → Bool
is_unallocated (prepare_failed no_allocation) = true
is_unallocated _ = false

abbrev pub is_missing : PrepareResult → Bool
is_missing (prepare_failed (device_missing d)) = true
is_missing _ = false

abbrev pub is_foreign : PrepareResult → Bool
is_foreign (prepare_failed foreign_only) = true
is_foreign _ = false

abbrev pub is_unwritten : PrepareResult → Bool
is_unwritten (prepare_failed (cdi_write e)) = true
is_unwritten _ = false

-- A series grows by the claims of its outcome.
abbrev pub Grows :
    (PrepareResult → Bool) → String → String → List PrepareResult → Metrics → Metrics → Type 0
Grows p result reason rs m n =
    n.prepare_total result reason ≡ m.prepare_total result reason + count p rs

-- Each series of prepare_total has grown by the claims that end the way it names, and each claim's
-- time was observed.
pub record Counted (rs : List PrepareResult) (m n : Metrics) : Type 0 where
  pub ok_none : Grows is_ok "ok" "none" rs m n
  pub unallocated : Grows is_unallocated "error" "no_allocation" rs m n
  pub device_gone : Grows is_missing "error" "device_missing" rs m n
  pub foreign : Grows is_foreign "error" "foreign_only" rs m n
  pub unwritten : Grows is_unwritten "error" "cdi_write" rs m n
  pub observed : n.prepare_duration.count ≡ m.prepare_duration.count + length rs

-- The results and the directory do not depend on what is counted.
pub prepare_resource_claims-results :
    (inv : Inventory) (answers : String → Option String) (claims : List (ResourceClaim × ℕ))
    (b : Batch PrepareResult)
    → (
      (prepare_resource_claims inv answers claims b).results,
      (prepare_resource_claims inv answers claims b).dir,
    )
      ≡ prepare_claims inv answers b.results b.dir (map (λ c. c.0) claims)
unfolding prepare_resource_claims prepare_claims
prepare_resource_claims-results inv answers [] b = refl
prepare_resource_claims-results inv answers ((claim, d) ∷ rest) b =
    prepare_resource_claims-results inv answers rest _

if-dir : (b : Bool) (s t : SpecDir × Metrics) → (if b then s else t).0 ≡ (if b then s.0 else t.0)
if-dir true s t = refl
if-dir false s t = refl

collect_orphans-dir :
    (answers : String → Option String) (live : GoMap Bool) (uids : List String)
    (s : SpecDir × Metrics)
    → (collect_orphans answers live uids s).0 ≡ remove_orphans answers live uids s.0
unfolding collect_orphans remove_orphans
collect_orphans-dir answers live [] s = refl
collect_orphans-dir answers live (uid ∷ rest) s =
    let r = remove_spec answers uid s.0 in
    collect_orphans-dir answers live rest
      (if has_key uid live then s else (r.1, note_removal r.0 s.1))
    ∙ ap (remove_orphans answers live rest)
        (if-dir (has_key uid live) s (r.1, note_removal r.0 s.1))

-- The collection at the start leaves the directory that gcOrphanedSpecs does.
pub gc_at_start-dir :
    (answers : String → Option String) (claims : Option (List ResourceClaim))
    (s : SpecDir × Metrics)
    → (gc_at_start answers claims s).0 ≡ gc_orphaned_specs answers claims s.0
unfolding gc_at_start gc_orphaned_specs
gc_at_start-dir answers none s = refl
gc_at_start-dir answers (some claims) s =
    collect_orphans-dir answers (live_uids claims) (spec_uids s.0) s
