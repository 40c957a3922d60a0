-- ===== src/Agent/Run/Lockstep.antt =====
-- The loop of main.go: the names that are published and the snapshot that prepare reads, from the
-- start on.
use llmfit_dra.Prelude.{
  String, ℕ, ◌+◌, ◌≡◌, Option, none, some, List, [], ◌∷◌, Bool, true, false, is_some, All,
  if◌then◌else◌, subst,
}
use llmfit_dra.Resource.{Device}
use llmfit_dra.Index.{Index}
use llmfit_dra.Llmfit.{FloatOps}
use llmfit_dra.Llmfit.Transport.{new_transports}
use llmfit_dra.Agent.{
  Config, World, Agent, first_agent, start_agent, after_walk, assess_node, desired_state,
  refresh_opts, begin, accepts_flags,
}
use llmfit_dra.Probe.{ProbeDevice}
use llmfit_dra.Publisher.Resolves.{published-resolves}
use llmfit_dra.Agent.Cycles.{lookup-resources}
use llmfit_dra.Agent.Lockstep.{InStep, reads_memory, cycle-InStep}
use llmfit_dra.Agent.Run.Cycling.{probe_cycle-agent}
use llmfit_dra.Agent.Run.{
  Flags, Answers, Loop, Started, refused, serving, unless, serve, first_probe, with_index, start,
  build_config, config_of, first_loop, plugin_error, Turn, wakeup, listener_closed, tick,
  probe_cycle, turn, run_turns,
}

-- The cycle of a turn reads the size of the memory whenever its walk succeeds.
abbrev pub turn_reads : {F : Type 0} → Config F → Turn F → Bool
turn_reads cfg (wakeup w) = reads_memory cfg w
turn_reads cfg listener_closed = true
turn_reads cfg (tick w) = reads_memory cfg w

module _ {F : Type 0} (cfg : Config F) where
  probe_cycle-InStep :
      (w : World F) (l : Loop F)
      → reads_memory cfg w ≡ true
      → InStep cfg l.agent
      → InStep cfg (probe_cycle cfg w l).agent
  probe_cycle-InStep w l h step = rw (probe_cycle-agent cfg w l) (cycle-InStep cfg w l.agent h step)

  if-InStep :
      (b : Bool) (l m : Loop F)
      → InStep cfg l.agent
      → InStep cfg m.agent
      → InStep cfg (if b then l else m).agent
  if-InStep true l m h k = h
  if-InStep false l m h k = k

  turn-InStep :
      (t : Turn F) (l : Loop F)
      → turn_reads cfg t ≡ true
      → InStep cfg l.agent
      → InStep cfg (turn cfg t l).agent
  unfolding turn
  turn-InStep (wakeup w) l h step =
      let woken = record l { wakeups = l.wakeups + 1 } in
      if-InStep l.listening (probe_cycle cfg w woken) l (probe_cycle-InStep w woken h step) step
  turn-InStep listener_closed l h step =
      if-InStep l.listening (record l { listening = false; listener_up = false }) l step step
  turn-InStep (tick w) l h step = probe_cycle-InStep w l h step

  run_turns-InStep :
      (ts : List (Turn F)) (l : Loop F)
      → All (λ t. turn_reads cfg t ≡ true) ts
      → InStep cfg l.agent
      → InStep cfg (run_turns cfg ts l).agent
  unfolding run_turns
  run_turns-InStep [] l h step = step
  run_turns-InStep (t ∷ rest) l h step =
      run_turns-InStep rest (turn cfg t l) h.1 (turn-InStep t l h.0 step)

-- A state of the agent after a start that reached its loop.
abbrev pub Serves : {F : Type 0} → (Config F → Loop F → Type 0) → Started F → Type 0
Serves P (refused e) = Unit
Serves P (serving cfg l) = P cfg l

module _ {F : Type 0} where
  unless-Serves :
      (P : Config F → Loop F → Type 0) (e : Option String) (what : String) (rest : Started F)
      → Serves P rest
      → Serves P (unless e what rest)
  unless-Serves P none what rest h = h
  unless-Serves P (some e) what rest h = tt

  if-Serves :
      (P : Config F → Loop F → Type 0) (b : Bool) (what : String) (rest : Started F)
      → Serves P rest
      → Serves P (if b then rest else refused what)
  if-Serves P true what rest h = h
  if-Serves P false what rest h = tt

  abbrev Begun : Config F → Option (Agent F) → Type 0
  Begun cfg none = Unit
  Begun cfg (some a) = InStep cfg a

  -- The first desired state of a start that goes on leaves the snapshot in step.
  begin-Begun :
      (cfg : Config F) (walk : Option (List ProbeDevice)) (mem : Option ℕ) (w : World F)
      (a : Agent F)
      → Begun cfg (begin cfg w.finished (after_walk cfg walk mem w a))
  unfolding begin after_walk assess_node InStep
  begin-Begun cfg none mem w a = tt
  begin-Begun cfg (some probed) none w a = tt
  begin-Begun cfg (some probed) (some ram) w a =
      λ name. rw (lookup-resources cfg _) (published-resolves cfg.ops _ probed name)

  start_agent-Begun : (cfg : Config F) (w : World F) → Begun cfg (start_agent cfg w)
  unfolding start_agent desired_state
  start_agent-Begun cfg w =
      begin-Begun cfg w.walk w.mem_total w (refresh_opts cfg w.slices first_agent)

module _ {F : Type 0} (ops : FloatOps F) (same : List Device → List Device → Bool) where
  abbrev IsInStep : Config F → Loop F → Type 0
  IsInStep cfg l = InStep cfg l.agent

  first_probe-Serves :
      (flags : Flags) (answers : Answers F) (cfg : Config F) (o : Option (Agent F))
      → Begun cfg o
      → Serves IsInStep (first_probe ops same flags answers cfg o)
  unfolding first_probe serve
  first_probe-Serves flags answers cfg none h = tt
  first_probe-Serves flags answers cfg (some a) h =
      unless-Serves IsInStep answers.publisher "starting resourceslice controller: " _ (
        unless-Serves IsInStep (plugin_error flags answers) "starting kubelet plugin: "
          (serving cfg (first_loop answers a)) h)

  with_index-Serves :
      (flags : Flags) (answers : Answers F) (idx : Option Index)
      → Serves IsInStep (with_index ops same flags answers idx)
  unfolding with_index
  with_index-Serves flags answers none = tt
  with_index-Serves flags answers (some idx) =
      let cfg = config_of ops same flags idx in
      if-Serves IsInStep (is_some (new_transports flags.llmfit_url flags.llmfit_bin))
        "configuring llmfit source"
        (first_probe ops same flags answers cfg (start_agent cfg answers.first))
        (first_probe-Serves flags answers cfg (start_agent cfg answers.first)
          (start_agent-Begun cfg answers.first))

  start-Serves :
      (flags : Flags) (answers : Answers F) → Serves IsInStep (start ops same flags answers)
  unfolding start
  start-Serves flags answers =
      let opened = with_index ops same flags answers answers.idx in
      let connected = unless answers.client "building kube client: " opened in
      let source = answers.config (build_config flags.kubeconfig) in
      if-Serves IsInStep (accepts_flags flags.node_name flags.interval) "flags"
        (unless source "building kube config: " connected)
        (unless-Serves IsInStep source "building kube config: " connected (
          unless-Serves IsInStep answers.client "building kube client: " opened
            (with_index-Serves flags answers answers.idx)))

  -- After a start that reaches the loop and any turns of it, prepare finds a device under a name
  -- exactly when a device of that name is published, if no cycle of a turn failed to read the size of
  -- the memory after a walk.
  pub start-InStep :
      (flags : Flags) (answers : Answers F) (cfg : Config F) (l : Loop F) (ts : List (Turn F))
      → start ops same flags answers ≡ serving cfg l
      → All (λ t. turn_reads cfg t ≡ true) ts
      → InStep cfg (run_turns cfg ts l).agent
  start-InStep flags answers cfg l ts e h =
      run_turns-InStep cfg ts l h (subst (Serves IsInStep) e (start-Serves flags answers))
