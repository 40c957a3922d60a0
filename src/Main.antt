-- ===== src/Main.antt =====
-- main of cmd/llmfit-dra/main.go: the choice of the mode, and the start of the controller with its
-- errors. What the start is answered is its input.
use Prim.Native.String.{◌++◌}
use llmfit_dra.Prelude.{String, ℕ, Option, none, some, List, Bool, true, false, if◌then◌else◌}
use llmfit_dra.Index.{NvidiaBoards}
use llmfit_dra.Resource.{Device}
use llmfit_dra.Llmfit.{FloatOps}
use llmfit_dra.Agent.Run.{
  Flags, Answers, Started, refused, serving, start, ConfigSource, build_config,
}
use llmfit_dra.Observe.Health.{Health, new_health, beat, mark_ready}

-- What the calls of runController are answered: `none` is success, except for the boards.
pub record ControllerAnswers : Type 0 where
  pub config : ConfigSource → Option String
  pub client : Option String
  pub dynamic_client : Option String
  pub boards : Option NvidiaBoards
  pub caches_synced : Bool

pub data ControllerStarted : Type 0 where
  not_started : String → ControllerStarted
  reconciling : NvidiaBoards → Health → ControllerStarted

abbrev pub unless_failed : Option String → String → ControllerStarted → ControllerStarted
unless_failed none what rest = rest
unless_failed (some e) what rest = not_started (what ++ e)

-- `Controller.Run` up to its workers.
unfoldable pub run_informers : ℕ → NvidiaBoards → Health → Bool → ControllerStarted
run_informers now boards health true = reconciling boards (beat now (mark_ready health))
run_informers now boards health false = not_started "informer caches did not sync"

-- Two minutes without a beat are stale.
unfoldable pub with_boards : ℕ → Bool → Option NvidiaBoards → ControllerStarted
unfolding run_informers
with_boards now synced none = not_started "boards"
with_boards now synced (some boards) = run_informers now boards (new_health now 120000000000) synced

-- `runController`
unfoldable pub run_controller : String → ℕ → ControllerAnswers → ControllerStarted
unfolding with_boards build_config
run_controller kubeconfig now a =
    unless_failed (a.config (build_config kubeconfig)) "building kube config: " (
      unless_failed a.client "building kube client: " (
        unless_failed a.dynamic_client "building dynamic client: "
          (with_boards now a.caches_synced a.boards)))

-- The status that the process ends with: a failed start exits, and what runs ends with the signal.
abbrev pub controller_status : ControllerStarted → ℕ
controller_status (not_started e) = 1
controller_status (reconciling boards health) = 0

abbrev pub agent_status : {F : Type 0} → Started F → ℕ
agent_status (refused e) = 1
agent_status (serving cfg l) = 0

-- `main`, by the `--controller` flag.
unfoldable pub main :
    {F : Type 0}
    → FloatOps F
    → (List Device → List Device → Bool)
    → Bool
    → Flags
    → ℕ
    → ControllerAnswers
    → Answers F
    → ℕ
unfolding run_controller start
main ops same controller flags now ca aa =
    if controller
    then controller_status (run_controller flags.kubeconfig now ca)
    else agent_status (start ops same flags aa)
