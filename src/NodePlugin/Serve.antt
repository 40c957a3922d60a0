-- ===== src/NodePlugin/Serve.antt =====
-- plugin.go: the kubelet's calls with what they count, the start of the plugin, and HandleError. The
-- durations of the calls are an input.
pub mod Accounts
use Prim.Native.String.{◌++◌}
use llmfit_dra.Prelude.{
  String, ℕ, Option, none, some, List, [], ◌∷◌, Bool, true, false, ◌==◌, if◌then◌else◌, is_some,
}
use llmfit_dra.Prelude.Maps.{GoMap, insert, has_key}
use llmfit_dra.Resource.{ResourceClaim}
use llmfit_dra.ModelClaim.Backend.{driver_domain}
use llmfit_dra.Observe.Counters.{Metrics, observe_prepare, observe_unprepare, cdi_orphan_removed}
use llmfit_dra.NodePlugin.Inventory.{Inventory}
use llmfit_dra.NodePlugin.Prepare.{
  PrepareError, no_allocation, device_missing, foreign_only, cdi_write, PrepareResult, prepared,
  prepare_failed, SpecDir, prepare_claim,
}
use llmfit_dra.NodePlugin.Specs.{remove_spec, live_uids, spec_uids}

-- The bounded reason that `prepareClaim` returns beside its error.
unfoldable pub reason_label : PrepareError → String
reason_label no_allocation = "no_allocation"
reason_label (device_missing d) = "device_missing"
reason_label foreign_only = "foreign_only"
reason_label (cdi_write e) = "cdi_write"

-- What the loop of `PrepareResourceClaims` observes of a result.
unfoldable pub note_prepared : PrepareResult → ℕ → Metrics → Metrics
unfolding reason_label observe_prepare
note_prepared (prepared devices) d m = observe_prepare "ok" "none" d m
note_prepared (prepare_failed e) d m = observe_prepare "error" (reason_label e) d m

unfoldable pub note_unprepared : Option String → ℕ → Metrics → Metrics
unfolding observe_unprepare
note_unprepared none d m = observe_unprepare "ok" d m
note_unprepared (some e) d m = observe_unprepare "error" d m

-- The results so far, the spec directory, and the metrics.
pub record Batch (R : Type 0) : Type 0 where
  pub results : GoMap R
  pub dir : SpecDir
  pub metrics : Metrics

-- `PrepareResourceClaims`, from the claims with the time that each takes.
unfoldable pub prepare_resource_claims :
    Inventory
    → (String → Option String)
    → List (ResourceClaim × ℕ)
    → Batch PrepareResult
    → Batch PrepareResult
unfolding note_prepared
prepare_resource_claims inv answers [] b = b
prepare_resource_claims inv answers ((claim, d) ∷ rest) b =
    let r = prepare_claim inv (answers claim.uid) b.dir claim in
    prepare_resource_claims inv answers rest (record {
      results = insert claim.uid r.0 b.results;
      dir = r.1;
      metrics = note_prepared r.0 d b.metrics;
    })

-- `UnprepareResourceClaims`
unfoldable pub unprepare_resource_claims :
    (String → Option String) → List (String × ℕ) → Batch (Option String) → Batch (Option String)
unfolding note_unprepared
unprepare_resource_claims answers [] b = b
unprepare_resource_claims answers ((uid, d) ∷ rest) b =
    let r = remove_spec answers uid b.dir in
    unprepare_resource_claims answers rest (record {
      results = insert uid r.0 b.results;
      dir = r.1;
      metrics = note_unprepared r.0 d b.metrics;
    })

-- A removal by `gcOrphanedSpecs` is counted, a failed one is logged.
abbrev pub note_removal : Option String → Metrics → Metrics
note_removal none m = cdi_orphan_removed m
note_removal (some e) m = m

-- The loop of `gcOrphanedSpecs`.
unfoldable pub collect_orphans :
    (String → Option String) → GoMap Bool → List String → SpecDir × Metrics → SpecDir × Metrics
collect_orphans answers live [] s = s
collect_orphans answers live (uid ∷ rest) s =
    let r = remove_spec answers uid s.0 in
    collect_orphans answers live rest (if has_key uid live then s else (r.1, note_removal r.0 s.1))

-- `gcOrphanedSpecs` with what it counts. Its error is logged and no more.
unfoldable pub gc_at_start :
    (String → Option String) → Option (List ResourceClaim) → SpecDir × Metrics → SpecDir × Metrics
unfolding collect_orphans
gc_at_start answers none s = s
gc_at_start answers (some claims) s = collect_orphans answers (live_uids claims) (spec_uids s.0) s

-- The options of the kubelet helper; with a rolling update the socket has the uid of the pod.
pub record HelperOptions : Type 0 where
  pub driver_name : String
  pub node_name : String
  pub rolling_update : Option String

abbrev pub options_for : String → String → HelperOptions
options_for node_name pod_uid = record {
  driver_name = driver_domain;
  node_name = node_name;
  rolling_update = if pod_uid == "" then none else some pod_uid;
}

-- What the start is answered. `helper` is `kubeletplugin.Start`; `none` is success.
pub record StartAnswers : Type 0 where
  pub mkdir : Option String
  pub removals : String → Option String
  pub claims : Option (List ResourceClaim)
  pub helper : HelperOptions → Option String

-- `Start`: its error, and what it leaves of the directory and the metrics.
unfoldable pub start_plugin :
    StartAnswers → String → String → SpecDir × Metrics → Option String × (SpecDir × Metrics)
unfolding gc_at_start
start_plugin a node_name pod_uid s = elim a.mkdir [
  | some e ↦ (some ("creating plugin socket dir: " ++ e), s)
  | none ↦ (a.helper (options_for node_name pod_uid), gc_at_start a.removals a.claims s)
]

-- `HandleError`, by whether the error is recoverable: a fatal one ends the process.
pub data Reaction : Type 0 where
  logged exits : Reaction

unfoldable pub handle_error : Bool → Reaction
handle_error true = logged
handle_error false = exits
