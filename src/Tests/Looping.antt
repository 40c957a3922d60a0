-- ===== src/Tests/Looping.antt =====
-- The agent from its start through turns of its loop.
use llmfit_dra.Prelude.{
  ℕ, ◌*◌, ◌≡◌, refl, true, false, Option, none, some, List, [], ◌∷◌, Bool, All, any, ◌||◌, arith,
  if◌then◌else◌,
}
use llmfit_dra.Resource.{Device}
use llmfit_dra.Agent.{Config, Agent, first_agent, live, start_agent, accepts_flags, begin}
use llmfit_dra.Llmfit.Transport.{new_transports}
use llmfit_dra.Agent.Lockstep.{InStep, reads_memory}
use llmfit_dra.Agent.Run.{
  Flags, Answers, Loop, Turn, wakeup, listener_closed, tick, serving, config_of, first_loop, start,
  serve, first_probe, with_index, run_turns,
}
use llmfit_dra.Agent.Run.Cycling.{cycles_of}
use llmfit_dra.Agent.Run.Lockstep.{turn_reads, start-InStep}
use llmfit_dra.Observe.Health.{healthz, status_ok, status_unavailable}
use llmfit_dra.Observe.Heartbeat.{health_of, beats_within, healthz-progress}
use llmfit_dra.Tests.Publishing.{whole}
use llmfit_dra.Tests.Listening.{calm, walk_fails}

abbrev flags : Flags
flags = record {
  kubeconfig = "";
  node_name = "node-a";
  interval = 60000000000;
  llmfit_url = "";
  llmfit_bin = "llmfit";
  kubelet_plugin = true;
  taints = false;
  vendor_drivers = "";
}

-- The uevent listener is not available.
abbrev answers : Answers ℕ
answers = record {
  config = λ source. none;
  client = none;
  idx = some (record { entries = [] });
  first = calm;
  publisher = none;
  plugin = none;
  listener = some "operation not permitted";
}

abbrev never_same : List Device → List Device → Bool
never_same a b = false

abbrev running_config : Config ℕ
running_config = config_of whole never_same flags (record { entries = [] })

abbrev or_first : Option (Agent ℕ) → Agent ℕ
or_first none = first_agent
or_first (some a) = a

abbrev started : Loop ℕ
started = first_loop answers (or_first (start_agent running_config calm))

starts : start whole never_same flags answers ≡ serving running_config started
unfolding start with_index first_probe serve start_agent begin accepts_flags new_transports
starts = refl

abbrev turns : List (Turn ℕ)
turns = tick walk_fails ∷ listener_closed ∷ wakeup calm ∷ []

turns_read : All (λ t. turn_reads running_config t ≡ true) turns
unfolding reads_memory
turns_read = (refl, (refl, (refl, tt)))

start-InStep_example : InStep running_config (run_turns running_config turns started).agent
start-InStep_example =
    start-InStep whole never_same flags answers running_config started turns starts turns_read

-- A loop whose last beat was at the time 61.
abbrev beaten : Loop ℕ
beaten = record started { agent = record first_agent { last_beat = 61 } }

healthz-progress_example : healthz 200 (health_of flags (run_turns running_config turns beaten)) ≡ (
    if live (3 * flags.interval) 200 61
      || any (beats_within running_config (3 * flags.interval) 200) (cycles_of turns false)
    then status_ok
    else status_unavailable)
healthz-progress_example =
    healthz-progress running_config flags 200 turns beaten (omega arith, omega arith)
