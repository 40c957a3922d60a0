-- ===== src/Tests/Listening.antt =====
-- The agent's cycles, llmfit's reports over time, and the kernel's events.
use llmfit_dra.Prelude.{
  ℕ, ◌≡◌, ◌≢◌, refl, true, false, none, some, List, [], ◌∷◌, All, any, all, ◌||◌, arith,
}
use llmfit_dra.Prelude.Maps.{lookup}
use llmfit_dra.Prelude.Text.{codes}
use llmfit_dra.Resource.{ResourceClaim, AllocationResult}
use llmfit_dra.Llmfit.{System}
use llmfit_dra.Llmfit.Detector.{answer, failure, detect, backfill_bandwidth}
use llmfit_dra.Llmfit.Detector.Serving.{Cycle, recent, is_served, after_history, detect_serves}
use llmfit_dra.Llmfit.Detector.Backfill.{Healed, backfill_bandwidth-Healed}
use llmfit_dra.ModelClaim.Backend.{gpu_class}
use llmfit_dra.ModelClaim.Satisfiable.Assess.{eligible, standing}
use llmfit_dra.Publisher.Coexist.{by_vendor, vendor_gpus_present}
use llmfit_dra.Agent.{Config, World, first_agent, cycle}
use llmfit_dra.Agent.Cycles.{pool_devices, cycle-demotes}
use llmfit_dra.Agent.Lockstep.{reads_memory, after_cycles}
use llmfit_dra.Agent.Prepares.{is_published, is_prepared, prepare_claim-published}
use llmfit_dra.NodePlugin.Prepare.{prepare_claim}
use llmfit_dra.Publisher.Build.{build_devices}
use llmfit_dra.Probe.{device_name}
use llmfit_dra.Hotplug.Uevent.{parse_uevent, relevant, same_bytes, cut_prefix}
use llmfit_dra.Hotplug.Messages.{message, last_subsystem, parse_uevent-message}
use llmfit_dra.Hotplug.Listener.{
  Listener, read, got, Reachable, start, after, matters, reader_turn, first_listener,
}
use llmfit_dra.Hotplug.NoLoss.{IsSound, reachable-IsSound}
use llmfit_dra.Hotplug.Signals.{Signals, unseen-Signals}
use llmfit_dra.Tests.Publishing.{whole, node, radeon, report, nvidia_known, node_slices}

-- A report that lacks the bandwidth.
abbrev unpriced : System ℕ
unpriced = record report { gpus = record radeon { memory_bandwidth_gbps = none } ∷ [] }

backfill_bandwidth-Healed_example :
    Healed whole
      (radeon ∷ [])
      (record radeon { memory_bandwidth_gbps = none } ∷ [])
      (backfill_bandwidth whole unpriced (some report)).gpus
backfill_bandwidth-Healed_example = backfill_bandwidth-Healed whole unpriced report

abbrev history : List (Cycle ℕ)
history =
    record { now = 90; api = some (failure "refused"); exec = none }
    ∷ record { now = 30; api = some (answer report); exec = none }
    ∷ []

detect_serves_example :
    is_served
      (detect whole 100 120 (some (failure "refused")) none (after_history whole 100 history)).1
    ≡ any (recent 100 120) history
detect_serves_example =
    detect_serves whole 100 history 120 (some (failure "refused")) none
      (omega arith, (omega arith, tt))

abbrev config : Config ℕ
config = record {
  ops = whole;
  idx = record { entries = [] };
  node_name = "node-a";
  vendor_drivers = ("gpu.nvidia.com", true) ∷ nvidia_known;
  taints = false;
  max_stale = 600;
  same_devices = λ a b. false;
}

abbrev pub calm : World ℕ
calm = record {
  slices = some node_slices;
  walk = some node;
  mem_total = some 68719476736;
  now = 60;
  finished = 61;
  api = some (answer report);
  exec = none;
}

abbrev pub walk_fails : World ℕ
walk_fails = record calm { walk = none; now = 120; finished = 121 }

both_read : All (λ w. reads_memory config w ≡ true) (walk_fails ∷ calm ∷ [])
unfolding reads_memory
both_read = (refl, (refl, tt))

vendor_seen : any (by_vendor (("gpu.nvidia.com", true) ∷ nvidia_known)) node_slices ≡ true
unfolding lookup
vendor_seen = refl

cycle-demotes_example :
    All
      (λ dev. standing gpu_class dev ≢ eligible)
      (pool_devices "node-a" (cycle config calm first_agent).resources)
cycle-demotes_example =
    cycle-demotes config ("gpu.nvidia.com", true) nvidia_known node_slices calm first_agent refl
      refl vendor_seen refl

abbrev own_result : AllocationResult
own_result = record {
  request = "model";
  driver = "llmfit.ai";
  pool = "node-a";
  device = "gpu-0000-01-00-0";
}

abbrev pod_claim : ResourceClaim
pod_claim = record {
  namespace = "default";
  name = "pod-model";
  uid = "0ba5";
  allocation = some (own_result ∷ []);
}

on_slice :
    all (is_published config (after_cycles config (walk_fails ∷ calm ∷ []))) (own_result ∷ [])
    ≡ true
unfolding after_cycles cycle pool_devices build_devices lookup device_name vendor_gpus_present
on_slice = refl

prepare_claim-published_example :
    is_prepared
      (prepare_claim (after_cycles config (walk_fails ∷ calm ∷ [])).inventory none [] pod_claim).0
    ≡ true
prepare_claim-published_example =
    prepare_claim-published config (walk_fails ∷ calm ∷ []) [] pod_claim (own_result ∷ []) both_read
      refl on_slice refl

-- The kernel's message of a GPU that appears.
abbrev gpu_added : List ℕ
gpu_added = message (codes "add") (codes "/devices/card0") ((codes "SUBSYSTEM", codes "drm") ∷ [])

parse_uevent-message_example :
    parse_uevent gpu_added
    ≡ some (record {
      action = codes "add";
      subsystem = last_subsystem ((codes "SUBSYSTEM", codes "drm") ∷ []) [];
    })
unfolding codes
parse_uevent-message_example =
    parse_uevent-message (codes "add") (codes "/devices/card0")
      ((codes "SUBSYSTEM", codes "drm") ∷ []) refl refl refl refl

-- The listener after it has read the message.
abbrev woken : Listener
woken = record (reader_turn (got gpu_added) first_listener) {
  unseen = false || matters (got gpu_added);
}

told : Reachable woken
told = after first_listener woken start (read first_listener (got gpu_added) refl)

told_unseen : woken.unseen ≡ true
unfolding matters parse_uevent message codes relevant same_bytes cut_prefix
told_unseen = refl

reachable-IsSound_example : IsSound woken
reachable-IsSound_example = reachable-IsSound woken told

unseen-Signals_example : Signals woken
unseen-Signals_example = unseen-Signals woken told told_unseen
