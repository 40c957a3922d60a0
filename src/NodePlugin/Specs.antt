-- ===== src/NodePlugin/Specs.antt =====
-- The end of a spec file: `UnprepareResourceClaims`, and the collection of orphaned files at the
-- start.
pub mod Orphans
use llmfit_dra.Prelude.{String, Option, none, some, List, [], ◌∷◌, Bool, true, ◌==◌, if◌then◌else◌}
use llmfit_dra.Prelude.Maps.{GoMap, insert, has_key, keys}
use llmfit_dra.Resource.{ResourceClaim}
use llmfit_dra.NodePlugin.Prepare.{SpecDir}

unfoldable pub delete_key : String → SpecDir → SpecDir
delete_key uid [] = []
delete_key uid ((k, v) ∷ rest) =
    let others = delete_key uid rest in if k == uid then others else (k, v) ∷ others

-- `removeSpec`, given what the removal of an existing file answers; a file that is not there is no
-- error.
unfoldable pub remove_spec : (String → Option String) → String → SpecDir → Option String × SpecDir
remove_spec answers uid dir =
    if has_key uid dir
    then (elim (answers uid) [ none ↦ (none, delete_key uid dir) | some e ↦ (some e, dir) ])
    else (none, dir)

-- `UnprepareResourceClaims`, after the results so far.
unfoldable pub unprepare_claims :
    (String → Option String)
    → List String
    → GoMap (Option String)
    → SpecDir
    → GoMap (Option String) × SpecDir
unprepare_claims answers [] results dir = (results, dir)
unprepare_claims answers (uid ∷ rest) results dir =
    let r = remove_spec answers uid dir in
    unprepare_claims answers rest (insert uid r.0 results) r.1

-- The loop of `gcOrphanedSpecs` over the uids that have a file: a failed removal is logged.
unfoldable pub remove_orphans :
    (String → Option String) → GoMap Bool → List String → SpecDir → SpecDir
remove_orphans answers live [] dir = dir
remove_orphans answers live (uid ∷ rest) dir =
    remove_orphans answers live rest
      (if has_key uid live then dir else (remove_spec answers uid dir).1)

unfoldable pub live_uids : List ResourceClaim → GoMap Bool
live_uids [] = []
live_uids (c ∷ rest) = insert c.uid true (live_uids rest)

-- `specUIDs`: the uids of the files in the directory.
abbrev pub spec_uids : SpecDir → List String
spec_uids dir = keys dir

-- `gcOrphanedSpecs`; `none` is a failure to list the claims.
unfoldable pub gc_orphaned_specs :
    (String → Option String) → Option (List ResourceClaim) → SpecDir → SpecDir
gc_orphaned_specs answers none dir = dir
gc_orphaned_specs answers (some claims) dir =
    remove_orphans answers (live_uids claims) (spec_uids dir) dir
