-- ===== src/NodePlugin/Specs/Orphans.antt =====
-- gcOrphanedSpecs and removeSpec, by what they leave in the directory.
use llmfit_dra.Prelude.{
  String, Option, none, some, List, [], ◌∷◌, Bool, true, false, ◌==◌, if◌then◌else◌, ◌≡◌, refl, ◌∙◌,
  arith, eq_iff, eq_refl, any,
}
use llmfit_dra.Prelude.Maps.{GoMap, lookup, has_key, keys, lookup-insert}
use llmfit_dra.Resource.{ResourceClaim}
use llmfit_dra.NodePlugin.Prepare.{SpecDir, among}
use llmfit_dra.NodePlugin.Specs.{
  delete_key, remove_spec, remove_orphans, live_uids, gc_orphaned_specs, spec_uids,
}

lookup-delete_key :
    (k j : String) (dir : SpecDir)
    → lookup j (delete_key k dir) ≡ (if k == j then none else lookup j dir)
unfolding lookup delete_key
lookup-delete_key k j [] = ground arith
lookup-delete_key k j ((i, v) ∷ dir) =
    ground (arith, lookup-delete_key k j dir, eq_iff i j, eq_iff i k, eq_iff k j)

-- A removal that succeeds leaves no file, and after it every further removal succeeds and changes
-- nothing, whatever the file system answers.
pub remove_spec_twice :
    (answers later : String → Option String) (uid : String) (dir : SpecDir)
    → (remove_spec answers uid dir).0 ≡ none
    → (lookup uid (remove_spec answers uid dir).1 ≡ none)
      × (remove_spec later uid (remove_spec answers uid dir).1
          ≡ (none, (remove_spec answers uid dir).1))
unfolding remove_spec
remove_spec_twice answers later uid dir h = (
  ground (arith, lookup-delete_key uid uid dir, eq_refl uid),
  ground (arith, lookup-delete_key uid uid dir, eq_refl uid),
)

remove_spec-lookup :
    (answers : String → Option String) (uid j : String) (dir : SpecDir)
    → uid == j ≡ false
    → lookup j (remove_spec answers uid dir).1 ≡ lookup j dir
unfolding remove_spec
remove_spec-lookup answers uid j dir h = ground (arith, lookup-delete_key uid j dir)

remove_orphans-live :
    (answers : String → Option String) (live : GoMap Bool) (j : String) (uids : List String)
    (dir : SpecDir)
    → has_key j live ≡ true
    → lookup j (remove_orphans answers live uids dir) ≡ lookup j dir
unfolding remove_orphans
remove_orphans-live answers live j [] dir h = refl
remove_orphans-live answers live j (uid ∷ rest) dir h =
    remove_orphans-live answers live j rest _ h
    ∙ ground (arith, eq_iff uid j, remove_spec-lookup answers uid j dir)

live_uids_lem :
    (claims : List ResourceClaim) (j : String)
    → has_key j (live_uids claims) ≡ any (λ c. c.uid == j) claims
unfolding live_uids lookup
live_uids_lem [] j = refl
live_uids_lem (c ∷ rest) j =
    ground (arith, lookup-insert c.uid j true (live_uids rest), live_uids_lem rest j)

-- The collection of orphans never touches the file of a claim that exists, whatever the removals
-- answer.
pub gc_keeps_live :
    (answers : String → Option String) (claims : List ResourceClaim) (dir : SpecDir) (uid : String)
    → any (λ c. c.uid == uid) claims ≡ true
    → lookup uid (gc_orphaned_specs answers (some claims) dir) ≡ lookup uid dir
unfolding gc_orphaned_specs
gc_keeps_live answers claims dir uid live =
    remove_orphans-live answers (live_uids claims) uid (spec_uids dir) dir
      (live_uids_lem claims uid ∙ live)

remove_spec_ok :
    (uid j : String) (dir : SpecDir)
    → lookup j (remove_spec (λ _. none) uid dir).1 ≡ (if uid == j then none else lookup j dir)
unfolding remove_spec
remove_spec_ok uid j dir = ground (arith, lookup-delete_key uid j dir, eq_iff uid j)

remove_orphans_lem :
    (live : GoMap Bool) (j : String) (uids : List String) (dir : SpecDir)
    → has_key j live ≡ false
    → lookup j (remove_orphans (λ _. none) live uids dir)
      ≡ (if among j uids then none else lookup j dir)
unfolding remove_orphans
remove_orphans_lem live j [] dir h = refl
remove_orphans_lem live j (uid ∷ rest) dir h =
    remove_orphans_lem live j rest _ h ∙ ground (arith, eq_iff uid j, remove_spec_ok uid j dir)

among-keys : (j : String) (dir : SpecDir) → among j (keys dir) ≡ has_key j dir
unfolding lookup
among-keys j [] = refl
among-keys j ((k, v) ∷ dir) = ground (arith, among-keys j dir)

-- When every removal succeeds, the files that are left are those of the claims that exist.
pub gc_removes_orphans :
    (claims : List ResourceClaim) (dir : SpecDir) (uid : String)
    → lookup uid (gc_orphaned_specs (λ _. none) (some claims) dir)
      ≡ (if any (λ c. c.uid == uid) claims then lookup uid dir else none)
unfolding gc_orphaned_specs
gc_removes_orphans claims dir uid = ground (
  arith,
  remove_orphans-live (λ _. none) (live_uids claims) uid (spec_uids dir) dir,
  remove_orphans_lem (live_uids claims) uid (spec_uids dir) dir,
  live_uids_lem claims uid,
  among-keys uid dir,
)
