-- ===== src/Tests/Writing.antt =====
-- A spec file written through a crash, and a batch of the kubelet.
use llmfit_dra.Resource.{ResourceClaim}
use llmfit_dra.Prelude.{ℕ, List, String, true, false, ◌≡◌, ◌⊎◌, refl, none, some, [], ◌∷◌}
use llmfit_dra.Prelude.Lists.{take}
use llmfit_dra.Prelude.Maps.{lookup}
use llmfit_dra.NodePlugin.Prepare.{PrepareResult, write_spec}
use llmfit_dra.Observe.Counters.{Metrics, Histogram}
use llmfit_dra.NodePlugin.Serve.{Batch}
use llmfit_dra.NodePlugin.SpecFile.{
  CdiSpec, Files, WriteAnswers, write_spec_calls, run_calls, power_loss, spec_path,
}
use llmfit_dra.NodePlugin.SpecFile.Crash.{power_loss-whole}
use llmfit_dra.NodePlugin.SpecFile.Refines.{Shows, write_spec_calls-Shows}
use llmfit_dra.Tests.Plugin.{allocated}

abbrev encode : CdiSpec → String
encode spec = "{}"

abbrev succeeds : WriteAnswers
succeeds = record {
  mkdir = none;
  marshal = none;
  create = some "1234";
  create_error = "";
  written = "";
  write = none;
  sync = none;
  close = none;
  rename = none;
}

abbrev empty_dir : Files
empty_dir _ = none

abbrev torn : String → String
torn _ = "garbage"

power_loss-whole_example :
    ((power_loss torn
        (run_calls (take 3 (write_spec_calls encode succeeds "0ba5" []).0) empty_dir)
        (spec_path "0ba5"))
      ≡ power_loss torn empty_dir (spec_path "0ba5"))
    ⊎ ((power_loss torn
          (run_calls (take 3 (write_spec_calls encode succeeds "0ba5" []).0) empty_dir)
          (spec_path "0ba5"))
        ≡ some (record { content = "{}"; synced = true }))
power_loss-whole_example = power_loss-whole encode succeeds "0ba5" [] empty_dir 3 torn

nothing_shown : Shows encode empty_dir []
unfolding lookup
nothing_shown _ = refl

write_spec_calls-Shows_example :
    Shows encode
      (run_calls (write_spec_calls encode succeeds "0ba5" []).0 empty_dir)
      (write_spec (write_spec_calls encode succeeds "0ba5" []).1 [] "0ba5" []).1
write_spec_calls-Shows_example =
    write_spec_calls-Shows encode succeeds "0ba5" [] empty_dir [] nothing_shown

abbrev no_time : Histogram
no_time = record { count = 0; sum = 0 }

abbrev first_metrics : Metrics
first_metrics = record {
  probe_duration = no_time;
  slice_updates = 0;
  prepare_total = λ _ _. 0;
  unprepare_total = λ _. 0;
  prepare_duration = no_time;
  unprepare_duration = no_time;
  probe_errors = λ _. 0;
  slice_publish_errors = λ _. 0;
  hotplug_listener_up = false;
  hotplug_wakeups = 0;
  cdi_orphans_removed = 0;
  resolve_duration = λ _. no_time;
  model_claim_reconciles = λ _. 0;
}

abbrev first_batch : Batch PrepareResult
first_batch = record { results = []; dir = []; metrics = first_metrics }

abbrev batch : List (ResourceClaim × ℕ)
batch = (allocated "gpu-0000-01-00-0", 7) ∷ (allocated "gone", 3) ∷ []
