-- ===== src/Agent/Lockstep.antt =====
-- The loop of main.go: the names that are published and the snapshot that prepare reads.
use llmfit_dra.Prelude.{
  String, ℕ, ◌≡◌, Option, none, some, List, [], ◌∷◌, Bool, true, not, ◌||◌, arith, refl, is_some,
  All,
}
use llmfit_dra.Prelude.Maps.{lookup}
use llmfit_dra.Probe.{ProbeDevice}
use llmfit_dra.NodePlugin.Inventory.{lookup_device}
use llmfit_dra.Publisher.Names.{find_published}
use llmfit_dra.Publisher.Resolves.{published-resolves}
use llmfit_dra.Publisher.Coexist.{vendor_gpus_present}
use llmfit_dra.Agent.{
  Config, World, Agent, first_agent, take_survey, refresh_opts, assess_node, after_walk,
  desired_state, finish_cycle, cycle,
}
use llmfit_dra.Agent.Cycles.{pool_devices, lookup-resources}

module _ {F : Type 0} (cfg : Config F) where
  -- Prepare finds a device under exactly the published names.
  unfoldable pub InStep : Agent F → Type 0
  InStep a =
      (name : String)
      → is_some (lookup_device a.inventory name)
        ≡ is_some (find_published name (pool_devices cfg.node_name a.resources))

  -- The memory is read whenever the walk succeeds.
  unfoldable pub reads_memory : World F → Bool
  reads_memory w = not (is_some w.walk) || is_some w.mem_total

  survey-InStep :
      (r : Option (Bool × List String)) (a : Agent F) → InStep a → InStep (take_survey cfg r a)
  unfolding take_survey InStep
  survey-InStep none a step = step
  survey-InStep (some (present, foreign)) a step = step

  walked-InStep :
      (walk : Option (List ProbeDevice)) (mem : Option ℕ) (w : World F) (a : Agent F)
      → (not (is_some walk) || is_some mem) ≡ true
      → InStep a
      → InStep (finish_cycle cfg w.finished (after_walk cfg walk mem w a))
  unfolding after_walk finish_cycle assess_node InStep
  walked-InStep none mem w a h step = step
  walked-InStep (some probed) none w a h step = absurd (ground arith)
  walked-InStep (some probed) (some ram) w a h step =
      λ name. rw (lookup-resources cfg _) (published-resolves cfg.ops _ probed name)

  -- A cycle keeps the snapshot in step with what is published, if the memory is read whenever the
  -- walk succeeds.
  pub cycle-InStep :
      (w : World F) (a : Agent F) → reads_memory w ≡ true → InStep a → InStep (cycle cfg w a)
  unfolding cycle desired_state refresh_opts reads_memory
  cycle-InStep w a h step =
      walked-InStep w.walk w.mem_total w (refresh_opts cfg w.slices a) h
        (survey-InStep (vendor_gpus_present cfg.vendor_drivers w.slices) a step)

  -- The agent after its cycles, newest first.
  unfoldable pub after_cycles : List (World F) → Agent F
  after_cycles [] = first_agent
  after_cycles (w ∷ earlier) = cycle cfg w (after_cycles earlier)

  first-InStep : InStep first_agent
  unfolding InStep pool_devices lookup_device lookup
  first-InStep name = refl

  -- After any cycles, prepare finds a device under a name exactly when a device of that name is
  -- published, if no cycle failed to read the size of the memory after a walk.
  pub after_cycles-InStep :
      (history : List (World F))
      → All (λ w. reads_memory w ≡ true) history
      → InStep (after_cycles history)
  unfolding after_cycles
  after_cycles-InStep [] h = first-InStep
  after_cycles-InStep (w ∷ earlier) h =
      cycle-InStep w (after_cycles earlier) h.0 (after_cycles-InStep earlier h.1)
