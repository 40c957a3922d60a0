-- ===== src/Agent/Run/Cycling.antt =====
-- The loop of main.go, as the cycles that it runs.
use llmfit_dra.Prelude.{◌+◌, ◌≡◌, refl, List, [], ◌∷◌, Bool, false, arith, if◌then◌else◌}
use llmfit_dra.Agent.{Config, World, Agent, cycle}
use llmfit_dra.Agent.Run.{Loop, Turn, wakeup, listener_closed, tick, probe_cycle, turn, run_turns}

-- The cycles that the turns run: a wakeup runs none once the listener is gone.
abbrev pub cycles_of : {F : Type 0} → List (Turn F) → Bool → List (World F)
cycles_of [] listening = []
cycles_of (wakeup w ∷ rest) listening =
    let later = cycles_of rest listening in if listening then w ∷ later else later
cycles_of (listener_closed ∷ rest) listening = cycles_of rest false
cycles_of (tick w ∷ rest) listening = w ∷ cycles_of rest listening

module _ {F : Type 0} (cfg : Config F) where
  -- Cycles, one after the other.
  unfoldable pub all_cycles : List (World F) → Agent F → Agent F
  all_cycles [] a = a
  all_cycles (w ∷ rest) a = all_cycles rest (cycle cfg w a)

  pub probe_cycle-agent :
      (w : World F) (l : Loop F) → (probe_cycle cfg w l).agent ≡ cycle cfg w l.agent
  unfolding probe_cycle cycle
  probe_cycle-agent w l = refl

  probe_cycle-listening : (w : World F) (l : Loop F) → (probe_cycle cfg w l).listening ≡ l.listening
  unfolding probe_cycle
  probe_cycle-listening w l = refl

  -- The agent of the loop is that of its cycles.
  pub run_turns-agent :
      (ts : List (Turn F)) (l : Loop F)
      → (run_turns cfg ts l).agent ≡ all_cycles (cycles_of ts l.listening) l.agent
  unfolding run_turns turn all_cycles
  run_turns-agent [] l = refl
  run_turns-agent (wakeup w ∷ rest) l =
      let woken = record l { wakeups = l.wakeups + 1 } in
      ground (
        arith,
        run_turns-agent rest (probe_cycle cfg w woken),
        run_turns-agent rest l,
        probe_cycle-agent w woken,
        probe_cycle-listening w woken,
      )
  run_turns-agent (listener_closed ∷ rest) l = ground (
    arith,
    run_turns-agent rest (record l { listening = false; listener_up = false }),
    run_turns-agent rest l,
  )
  run_turns-agent (tick w ∷ rest) l = ground (
    arith,
    run_turns-agent rest (probe_cycle cfg w l),
    probe_cycle-agent w l,
    probe_cycle-listening w l,
  )
