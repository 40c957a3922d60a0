-- ===== src/Observe/Health.antt =====
-- Health of observe.go: the heartbeat, and the answers of the HTTP endpoints. Times are nanoseconds.
use llmfit_dra.Prelude.{ℕ, Bool, true, false, if◌then◌else◌}
use llmfit_dra.Agent.{live}

pub record Health : Type 0 where
  pub last_beat : ℕ
  pub ready : Bool
  pub max_stale : ℕ

-- `NewHealth`
unfoldable pub new_health : ℕ → ℕ → Health
new_health now max_stale = record { last_beat = now; ready = false; max_stale = max_stale }

-- `Beat` and `Ready`
unfoldable pub beat : ℕ → Health → Health
beat now h = record h { last_beat = now }

unfoldable pub mark_ready : Health → Health
mark_ready h = record h { ready = true }

abbrev pub status_ok : ℕ
status_ok = 200

abbrev pub status_unavailable : ℕ
status_unavailable = 503

-- The handlers of /healthz and /readyz, by the status that they write.
unfoldable pub healthz : ℕ → Health → ℕ
unfolding live
healthz now h = if live h.max_stale now h.last_beat then status_ok else status_unavailable

unfoldable pub readyz : Health → ℕ
readyz h = if h.ready then status_ok else status_unavailable
