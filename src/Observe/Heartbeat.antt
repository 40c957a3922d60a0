-- ===== src/Observe/Heartbeat.antt =====
-- What /healthz tells of the loop of main.go.
use llmfit_dra.Prelude.{
  String, ℕ, ◌-◌, ◌*◌, ◌≤◌, ◌≡◌, Option, none, some, List, [], ◌∷◌, Bool, ◌&&◌, ◌||◌, leb, any,
  arith, refl, ap, ◌∙◌, is_some, if◌then◌else◌,
}
use llmfit_dra.Probe.{ProbeDevice}
use llmfit_dra.Agent.{
  Config, World, Agent, live, cycle, desired_state, after_walk, assess_node, refresh_opts,
  take_survey, finish_cycle,
}
use llmfit_dra.Publisher.Coexist.{vendor_gpus_present}
use llmfit_dra.Agent.Cycles.{succeeds}
use llmfit_dra.Agent.Run.{Flags, Loop, Turn, run_turns}
use llmfit_dra.Agent.Run.Cycling.{cycles_of, all_cycles, run_turns-agent}
use llmfit_dra.Observe.Health.{Health, healthz, status_ok, status_unavailable}

-- The health that main shares with the loop: a beat within three intervals is fresh.
abbrev pub health_of : {F : Type 0} → Flags → Loop F → Health
health_of flags l = record {
  last_beat = l.agent.last_beat;
  ready = l.ready;
  max_stale = 3 * flags.interval;
}

module _ {F : Type 0} (cfg : Config F) where
  after_walk-beat :
      (r : Option (Bool × List String)) (walk : Option (List ProbeDevice)) (mem : Option ℕ)
      (w : World F) (a : Agent F)
      → (finish_cycle cfg w.finished (after_walk cfg walk mem w (take_survey cfg r a))).last_beat
        ≡ (if is_some walk && is_some mem then w.finished else a.last_beat)
  unfolding after_walk assess_node take_survey finish_cycle
  after_walk-beat none none mem w a = refl
  after_walk-beat (some r) none mem w a = refl
  after_walk-beat none (some probed) none w a = refl
  after_walk-beat (some r) (some probed) none w a = refl
  after_walk-beat r (some probed) (some ram) w a = refl

  cycle-beat :
      (w : World F) (a : Agent F)
      → (cycle cfg w a).last_beat ≡ (if succeeds w then w.finished else a.last_beat)
  unfolding cycle desired_state refresh_opts
  cycle-beat w a =
      after_walk-beat (vendor_gpus_present cfg.vendor_drivers w.slices) w.walk w.mem_total w a

  -- The cycles end one after the other, the last no later than now.
  abbrev pub InOrder : ℕ → ℕ → List (World F) → Type 0
  InOrder since now [] = since ≤ now
  InOrder since now (w ∷ rest) = (since ≤ w.finished) × InOrder w.finished now rest

  -- A cycle that succeeded ended within the window.
  abbrev pub beats_within : ℕ → ℕ → World F → Bool
  beats_within window now w = succeeds w && leb (now - w.finished) window

  started-le : (ws : List (World F)) (since now : ℕ) → InOrder since now ws → since ≤ now
  started-le [] since now h = h
  started-le (w ∷ rest) since now h = omega (arith, h.0, started-le rest w.finished now h.1)

  -- The heartbeat is fresh exactly if it was, or some cycle refreshed it.
  all_cycles-live :
      (window now : ℕ) (ws : List (World F)) (a : Agent F) (since : ℕ)
      → a.last_beat ≤ since
      → InOrder since now ws
      → live window now (all_cycles cfg ws a).last_beat
        ≡ (live window now a.last_beat || any (beats_within window now) ws)
  unfolding all_cycles live
  all_cycles-live window now [] a since h order = ground arith
  all_cycles-live window now (w ∷ rest) a since h order = ground (
    arith,
    all_cycles-live window now rest (cycle cfg w a) w.finished,
    cycle-beat w a,
    started-le rest w.finished now order.1,
    order.0,
  )

  -- /healthz answers 200 exactly if the loop's last beat before these turns, or a cycle of them that
  -- succeeded, is not older than three intervals, for cycles in the order of time.
  pub healthz-progress :
      (flags : Flags) (now : ℕ) (ts : List (Turn F)) (l : Loop F)
      → InOrder l.agent.last_beat now (cycles_of ts l.listening)
      → healthz now (health_of flags (run_turns cfg ts l)) ≡ (
          if live (3 * flags.interval) now l.agent.last_beat
            || any (beats_within (3 * flags.interval) now) (cycles_of ts l.listening)
          then status_ok
          else status_unavailable)
  unfolding healthz
  healthz-progress flags now ts l order =
      ap (λ b. if b then status_ok else status_unavailable)
        (ap (λ a. live (3 * flags.interval) now a.last_beat) (run_turns-agent cfg ts l)
          ∙ all_cycles-live (3 * flags.interval) now (cycles_of ts l.listening) l.agent
              l.agent.last_beat (omega arith) order)
