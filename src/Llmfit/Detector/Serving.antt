-- ===== src/Llmfit/Detector/Serving.antt =====
-- When Detect has something to serve, over a history of cycles.
use llmfit_dra.Prelude.{
  String, ℕ, ◌-◌, ◌≤◌, ◌≡◌, Option, none, some, List, [], ◌∷◌, Bool, true, false, ◌&&◌, ◌||◌, arith,
  leb, any, refl, if◌then◌else◌,
}
use llmfit_dra.Llmfit.{FloatOps, System}
use llmfit_dra.Llmfit.Detector.{
  TransportReply, Detector, new_detector, detect, serve_cached, answer, failure,
}

-- One probe cycle: the time, and what the transports answer.
pub record Cycle (F : Type 0) : Type 0 where
  pub now : ℕ
  pub api : Option (TransportReply F)
  pub exec : Option (TransportReply F)

abbrev within : ℕ → ℕ → Option ℕ → Bool
within max_stale now none = false
within max_stale now (some t) = leb (now - t) max_stale

module _ {F : Type 0} where
  abbrev pub answers : Option (TransportReply F) → Bool
  answers none = false
  answers (some (answer sys)) = true
  answers (some (failure e)) = false

  abbrev pub is_served : TransportReply F → Bool
  is_served (answer sys) = true
  is_served (failure e) = false

  abbrev pub succeeds : Cycle F → Bool
  succeeds c = answers c.api || answers c.exec

  -- The cycles, newest first, are in the order of time and not after `now`.
  abbrev pub InOrder : ℕ → List (Cycle F) → Type 0
  InOrder now [] = Unit
  InOrder now (c ∷ earlier) = c.now ≤ now × InOrder c.now earlier

  abbrev pub recent : ℕ → ℕ → Cycle F → Bool
  recent max_stale now c = succeeds c && leb (now - c.now) max_stale

  -- When the detector's report was read.
  abbrev clock : Detector F → Option ℕ
  clock d = elim d.last [ none ↦ none | some sys ↦ some d.last_at ]

  abbrev last_success : List (Cycle F) → Option ℕ
  last_success [] = none
  last_success (c ∷ earlier) = if succeeds c then some c.now else last_success earlier

  InOrder-later :
      (now later : ℕ) (h : List (Cycle F)) → now ≤ later → InOrder now h → InOrder later h
  InOrder-later now later [] le order = tt
  InOrder-later now later (c ∷ earlier) le order = (omega (arith, order.0), order.1)

  -- A success within a bound is not after the newest cycle, which is then within it too.
  within-last_success :
      (max_stale now newest : ℕ) (h : List (Cycle F))
      → InOrder newest h
      → within max_stale now (last_success h) ≡ true
      → leb (now - newest) max_stale ≡ true
  within-last_success max_stale now newest [] order w = ground arith
  within-last_success max_stale now newest (c ∷ earlier) order w = ground (
    arith,
    order.0,
    within-last_success max_stale now newest earlier
        (InOrder-later c.now newest earlier order.0 order.1),
  )

  any-recent :
      (max_stale now : ℕ) (h : List (Cycle F))
      → InOrder now h
      → any (recent max_stale now) h ≡ within max_stale now (last_success h)
  any-recent max_stale now [] order = refl
  any-recent max_stale now (c ∷ earlier) order = ground (
    arith,
    any-recent max_stale now earlier (InOrder-later c.now now earlier order.0 order.1),
    within-last_success max_stale now c.now earlier order.1,
  )

  module _ (ops : FloatOps F) (max_stale : ℕ) where
    -- The detector after a history of cycles, newest first.
    unfoldable pub after_history : List (Cycle F) → Detector F
    after_history [] = new_detector
    after_history (c ∷ earlier) =
        (detect ops max_stale c.now c.api c.exec (after_history earlier)).0

    serve_cached-clock :
        (now : ℕ) (first : Option String) (last : Option (System F)) (at : ℕ) (t : String)
        → clock
            (serve_cached ops max_stale now first last
              (record { last = last; last_at = at; transport = t })).0
          ≡ clock (record { last = last; last_at = at; transport = t })
    unfolding serve_cached
    serve_cached-clock now first none at t = refl
    serve_cached-clock now first (some sys) at t = ground arith

    serve_cached-served :
        (now : ℕ) (first : Option String) (last : Option (System F)) (at : ℕ) (t : String)
        → is_served
            (serve_cached ops max_stale now first last
              (record { last = last; last_at = at; transport = t })).1
          ≡ within max_stale now (clock (record { last = last; last_at = at; transport = t }))
    unfolding serve_cached
    serve_cached-served now first none at t = refl
    serve_cached-served now first (some sys) at t = ground arith

    detect-clock :
        (now : ℕ) (api exec : Option (TransportReply F)) (d : Detector F)
        → clock (detect ops max_stale now api exec d).0
          ≡ (if answers api || answers exec then some now else clock d)
    unfolding detect
    detect-clock now (some (answer sys)) exec d = refl
    detect-clock now none none d = serve_cached-clock now none d.last d.last_at d.transport
    detect-clock now none (some (answer sys)) d = refl
    detect-clock now none (some (failure e)) d =
        serve_cached-clock now (some e) d.last d.last_at d.transport
    detect-clock now (some (failure e)) none d =
        serve_cached-clock now (some e) d.last d.last_at d.transport
    detect-clock now (some (failure e)) (some (answer sys)) d = refl
    detect-clock now (some (failure e)) (some (failure e2)) d =
        serve_cached-clock now (some e) d.last d.last_at d.transport

    detect-served :
        (now : ℕ) (api exec : Option (TransportReply F)) (d : Detector F)
        → is_served (detect ops max_stale now api exec d).1
          ≡ (answers api || answers exec || within max_stale now (clock d))
    unfolding detect
    detect-served now (some (answer sys)) exec d = refl
    detect-served now none none d = serve_cached-served now none d.last d.last_at d.transport
    detect-served now none (some (answer sys)) d = refl
    detect-served now none (some (failure e)) d =
        serve_cached-served now (some e) d.last d.last_at d.transport
    detect-served now (some (failure e)) none d =
        serve_cached-served now (some e) d.last d.last_at d.transport
    detect-served now (some (failure e)) (some (answer sys)) d = refl
    detect-served now (some (failure e)) (some (failure e2)) d =
        serve_cached-served now (some e) d.last d.last_at d.transport

    after_history-clock : (h : List (Cycle F)) → clock (after_history h) ≡ last_success h
    unfolding after_history
    after_history-clock [] = refl
    after_history-clock (c ∷ earlier) =
        rw (detect-clock c.now c.api c.exec (after_history earlier), after_history-clock earlier)
          refl

    -- After any history of cycles in the order of time, Detect serves a report exactly when a
    -- transport answers now, or one answered in a cycle that is not older than the staleness bound.
    pub detect_serves :
        (h : List (Cycle F)) (now : ℕ) (api exec : Option (TransportReply F))
        → InOrder now h
        → is_served (detect ops max_stale now api exec (after_history h)).1
          ≡ (answers api || answers exec || any (recent max_stale now) h)
    detect_serves h now api exec order =
        rw
          (
            detect-served now api exec (after_history h),
            after_history-clock h,
            any-recent max_stale now h order,
          )
          refl
