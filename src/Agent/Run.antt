-- ===== src/Agent/Run.antt =====
-- cmd/llmfit-dra/main.go: the start of the agent with its guards and errors, and the select loop.
-- What the start is answered is its input, and a turn of the loop is the arm that select chose.
pub mod Cycling
pub mod Lockstep
use Prim.Native.String.{◌++◌}
use llmfit_dra.Prelude.{
  String, ℕ, ◌+◌, Option, none, some, List, [], ◌∷◌, Bool, true, false, not, ◌==◌, if◌then◌else◌,
  is_some,
}
use llmfit_dra.Index.{Index}
use llmfit_dra.Resource.{Device}
use llmfit_dra.Llmfit.{FloatOps}
use llmfit_dra.Llmfit.Transport.{new_transports}
use llmfit_dra.Publisher.Coexist.{parse_vendor_drivers}
use llmfit_dra.Agent.{
  Config, World, Agent, accepts_flags, refresh_opts, desired_state, finish_cycle, start_agent,
}

-- The flags.
pub record Flags : Type 0 where
  pub kubeconfig : String
  pub node_name : String
  pub interval : ℕ
  pub llmfit_url : String
  pub llmfit_bin : String
  pub kubelet_plugin : Bool
  pub taints : Bool
  pub vendor_drivers : String

-- `envOr`
unfoldable pub env_or : (String → String) → String → String → String
env_or env key fallback = if env key == "" then fallback else env key

-- Where `buildConfig` reads the connection: a file, or the cluster the pod runs in.
pub data ConfigSource : Type 0 where
  from_file : String → ConfigSource
  in_cluster : ConfigSource

unfoldable pub build_config : String → ConfigSource
build_config kubeconfig = if kubeconfig == "" then in_cluster else from_file kubeconfig

-- What the calls of the start answer: `none` is success, except for the index, which is `none` if its
-- JSON does not parse.
pub record Answers (F : Type 0) : Type 0 where
  pub config : ConfigSource → Option String
  pub client : Option String
  pub idx : Option Index
  pub first : World F
  pub publisher : Option String
  pub plugin : Option String
  pub listener : Option String

-- The variables of the loop. `probes` and `slice_updates` are what ObserveProbe counts, and
-- `listening` is false where `uevents` is the nil channel.
pub record Loop (F : Type 0) : Type 0 where
  pub agent : Agent F
  pub listening : Bool
  pub listener_up : Bool
  pub ready : Bool
  pub wakeups : ℕ
  pub probes : ℕ
  pub slice_updates : ℕ

-- `refused` has the prefix that wraps the error of the call, or the name of the stage where the code
-- returns the error as it is.
pub data Started (F : Type 0) : Type 0 where
  refused : String → Started F
  serving : Config F → Loop F → Started F

-- `if err != nil { return … }`, and the rest.
abbrev pub unless : {F : Type 0} → Option String → String → Started F → Started F
unless none what rest = rest
unless (some e) what rest = refused (what ++ e)

-- The loop is entered ready, with or without a listener.
abbrev pub first_loop : {F : Type 0} → Answers F → Agent F → Loop F
first_loop answers a = record {
  agent = a;
  listening = not (is_some answers.listener);
  listener_up = not (is_some answers.listener);
  ready = true;
  wakeups = 0;
  probes = 0;
  slice_updates = 0;
}

-- The plugin is started only if it is asked for.
abbrev pub plugin_error : {F : Type 0} → Flags → Answers F → Option String
plugin_error flags answers = if flags.kubelet_plugin then answers.plugin else none

module _ {F : Type 0} (ops : FloatOps F) (same_devices : List Device → List Device → Bool) where
  -- The llmfit report is kept for ten minutes.
  unfoldable pub config_of : Flags → Index → Config F
  config_of flags idx = record {
    ops = ops;
    idx = idx;
    node_name = flags.node_name;
    vendor_drivers = parse_vendor_drivers flags.vendor_drivers;
    taints = flags.taints;
    max_stale = 600000000000;
    same_devices = same_devices;
  }

  -- From the start of the publisher on.
  unfoldable pub serve : Flags → Answers F → Config F → Agent F → Started F
  serve flags answers cfg a = unless answers.publisher "starting resourceslice controller: " (
      unless (plugin_error flags answers) "starting kubelet plugin: "
        (serving cfg (first_loop answers a)))

  -- The first desired state.
  unfoldable pub first_probe : Flags → Answers F → Config F → Option (Agent F) → Started F
  first_probe flags answers cfg none = refused "initial probe"
  first_probe flags answers cfg (some a) = serve flags answers cfg a

  unfoldable pub with_index : Flags → Answers F → Option Index → Started F
  unfolding config_of
  with_index flags answers none = refused "index"
  with_index flags answers (some idx) =
      if is_some (new_transports flags.llmfit_url flags.llmfit_bin)
      then first_probe flags answers (config_of flags idx)
          (start_agent (config_of flags idx) answers.first)
      else refused "configuring llmfit source"

  -- `run` up to its loop.
  unfoldable pub start : Flags → Answers F → Started F
  unfolding build_config
  start flags answers =
      if accepts_flags flags.node_name flags.interval
      then unless (answers.config (build_config flags.kubeconfig)) "building kube config: "
          (unless answers.client "building kube client: " (with_index flags answers answers.idx))
      else refused "flags"

-- The arms of the select, with what the cycle reads.
pub data Turn (F : Type 0) : Type 0 where
  wakeup : World F → Turn F
  listener_closed : Turn F
  tick : World F → Turn F

module _ {F : Type 0} (cfg : Config F) where
  -- `changed`
  abbrev pub changed : Agent F → Option (List Device) → Bool
  changed a none = false
  changed a (some devices) = not (cfg.same_devices a.prev devices)

  -- A cycle, with what ObserveProbe counts.
  unfoldable pub probe_cycle : World F → Loop F → Loop F
  probe_cycle w l =
      let r = desired_state cfg w (refresh_opts cfg w.slices l.agent) in
      record l {
        agent = finish_cycle cfg w.finished r;
        probes = if is_some r.1 then l.probes + 1 else l.probes;
        slice_updates = if changed r.0 r.1 then l.slice_updates + 1 else l.slice_updates;
      }

  -- One turn of the loop. The arm of a nil channel is never chosen.
  unfoldable pub turn : Turn F → Loop F → Loop F
  unfolding probe_cycle
  turn (wakeup w) l =
      if l.listening then probe_cycle w (record l { wakeups = l.wakeups + 1 }) else l
  turn listener_closed l =
      if l.listening then record l { listening = false; listener_up = false } else l
  turn (tick w) l = probe_cycle w l

  -- The turns in order, until the context is done.
  unfoldable pub run_turns : List (Turn F) → Loop F → Loop F
  run_turns [] l = l
  run_turns (t ∷ rest) l = run_turns rest (turn t l)
