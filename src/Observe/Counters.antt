-- ===== src/Observe/Counters.antt =====
-- The counters and histograms of observe.go, by their labels. A histogram is its count and the sum of
-- what it observed, in nanoseconds.
use llmfit_dra.Prelude.{String, ℕ, ◌+◌, Bool, ◌&&◌, ◌==◌, if◌then◌else◌}

pub record Histogram : Type 0 where
  pub count : ℕ
  pub sum : ℕ

pub record Metrics : Type 0 where
  pub probe_duration : Histogram
  pub slice_updates : ℕ
  pub prepare_total : String → String → ℕ
  pub unprepare_total : String → ℕ
  pub prepare_duration : Histogram
  pub unprepare_duration : Histogram
  pub probe_errors : String → ℕ
  pub slice_publish_errors : String → ℕ
  pub hotplug_listener_up : Bool
  pub hotplug_wakeups : ℕ
  pub cdi_orphans_removed : ℕ
  pub resolve_duration : String → Histogram
  pub model_claim_reconciles : String → ℕ

unfoldable pub observe : ℕ → Histogram → Histogram
observe d h = record { count = h.count + 1; sum = h.sum + d }

-- `WithLabelValues(label).Inc()`
unfoldable pub inc_at : String → (String → ℕ) → String → ℕ
inc_at label c l = if label == l then c l + 1 else c l

unfoldable pub observe_resolve : ℕ → String → Metrics → Metrics
unfolding observe
observe_resolve d result m = record m {
  resolve_duration =
      λ l. if result == l then observe d (m.resolve_duration l) else m.resolve_duration l;
}

unfoldable pub model_claim_reconcile : String → Metrics → Metrics
unfolding inc_at
model_claim_reconcile result m = record m {
  model_claim_reconciles = inc_at result m.model_claim_reconciles;
}

unfoldable pub probe_error : String → Metrics → Metrics
unfolding inc_at
probe_error stage m = record m { probe_errors = inc_at stage m.probe_errors }

unfoldable pub slice_publish_error : String → Metrics → Metrics
unfolding inc_at
slice_publish_error kind m = record m { slice_publish_errors = inc_at kind m.slice_publish_errors }

unfoldable pub hotplug_listener : Bool → Metrics → Metrics
hotplug_listener up m = record m { hotplug_listener_up = up }

unfoldable pub hotplug_wakeup : Metrics → Metrics
hotplug_wakeup m = record m { hotplug_wakeups = m.hotplug_wakeups + 1 }

unfoldable pub cdi_orphan_removed : Metrics → Metrics
cdi_orphan_removed m = record m { cdi_orphans_removed = m.cdi_orphans_removed + 1 }

unfoldable pub observe_probe : ℕ → Bool → Metrics → Metrics
unfolding observe
observe_probe d changed m = record m {
  probe_duration = observe d m.probe_duration;
  slice_updates = if changed then m.slice_updates + 1 else m.slice_updates;
}

-- `Prepare`
unfoldable pub observe_prepare : String → String → ℕ → Metrics → Metrics
unfolding observe
observe_prepare result reason d m = record m {
  prepare_total =
      λ l r. if result == l && reason == r then m.prepare_total l r + 1 else m.prepare_total l r;
  prepare_duration = observe d m.prepare_duration;
}

-- `Unprepare`
unfoldable pub observe_unprepare : String → ℕ → Metrics → Metrics
unfolding inc_at observe
observe_unprepare result d m = record m {
  unprepare_total = inc_at result m.unprepare_total;
  unprepare_duration = observe d m.unprepare_duration;
}
