-- ===== src/Llmfit/Detector.antt =====
-- internal/llmfit/detector.go: where the capability report of a cycle comes from. What the two
-- transports answer is a parameter. The mutex is not modelled: one goroutine calls Detect.
pub mod Serving
pub mod Backfill
use llmfit_dra.Prelude.{
  String, ℕ, ◌-◌, Option, none, some, List, [], ◌∷◌, Bool, true, false, ◌&&◌, ◌==◌, if◌then◌else◌,
  leb,
}
use llmfit_dra.Prelude.Maps.{GoMap, lookup, insert}
use llmfit_dra.Llmfit.{FloatOps, Gpu, System}

-- What a transport answers.
pub data TransportReply (F : Type 0) : Type 0 where
  answer : System F → TransportReply F
  failure : String → TransportReply F

-- The fields of `Detector` that change.
pub record Detector (F : Type 0) : Type 0 where
  pub last : Option (System F)
  pub last_at : ℕ
  pub transport : String

abbrev pub new_detector : {F : Type 0} → Detector F
new_detector = record { last = none; last_at = 0; transport = "" }

module _ {F : Type 0} (ops : FloatOps F) where
  -- `g.MemoryBandwidthGBps != nil && *g.MemoryBandwidthGBps > 0`
  abbrev pub has_bandwidth : Option F → Bool
  has_bandwidth none = false
  has_bandwidth (some bw) = ops.positive bw

  -- The first loop of `backfillBandwidth`.
  unfoldable pub known_bandwidths : List (Gpu F) → GoMap (Option F) → GoMap (Option F)
  known_bandwidths [] by_name = by_name
  known_bandwidths (g ∷ rest) by_name = known_bandwidths rest (
      if has_bandwidth g.memory_bandwidth_gbps
      then insert g.name g.memory_bandwidth_gbps by_name
      else by_name)

  unfoldable pub fill_gpu : GoMap (Option F) → Gpu F → Gpu F
  fill_gpu by_name g =
      if has_bandwidth g.memory_bandwidth_gbps then g else (elim (lookup g.name by_name) [
        | none ↦ g
        | some bw ↦ record g { memory_bandwidth_gbps = bw }
      ])

  -- The second loop.
  unfoldable pub fill_gpus : GoMap (Option F) → List (Gpu F) → List (Gpu F)
  unfolding fill_gpu
  fill_gpus by_name [] = []
  fill_gpus by_name (g ∷ rest) = fill_gpu by_name g ∷ fill_gpus by_name rest

  -- `backfillBandwidth`, as the report that it leaves.
  unfoldable pub backfill_bandwidth : System F → Option (System F) → System F
  unfolding known_bandwidths fill_gpus
  backfill_bandwidth fresh none = fresh
  backfill_bandwidth fresh (some prev) = record fresh {
    gpus = fill_gpus (known_bandwidths prev.gpus []) fresh.gpus;
  }

  abbrev keep_first : Option String → String → Option String
  keep_first none e = some e
  keep_first (some first) e = some first

  abbrev error_text : Option String → String
  error_text none = "no llmfit transport configured"
  error_text (some e) = e

  -- What is left when no transport answered.
  unfoldable pub serve_cached :
      ℕ → ℕ → Option String → Option (System F) → Detector F → Detector F × TransportReply F
  serve_cached max_stale now first none d = (d, failure (error_text first))
  serve_cached max_stale now first (some sys) d =
      if leb (now - d.last_at) max_stale
      then (record d { transport = "cache" }, answer sys)
      else (d, failure (error_text first))

  -- The loop over the transports; a nil function is `none`.
  unfoldable pub try_transports :
      ℕ
      → ℕ
      → List (String × Option (TransportReply F))
      → Option String
      → Detector F
      → Detector F × TransportReply F
  unfolding serve_cached backfill_bandwidth
  try_transports max_stale now [] first d = serve_cached max_stale now first d.last d
  try_transports max_stale now ((name, none) ∷ rest) first d =
      try_transports max_stale now rest first d
  try_transports max_stale now ((name, some (failure e)) ∷ rest) first d =
      try_transports max_stale now rest (keep_first first e) d
  try_transports max_stale now ((name, some (answer sys)) ∷ rest) first d =
      let filled = backfill_bandwidth sys d.last in
      (record { last = some filled; last_at = now; transport = name }, answer filled)

  -- `Detect`
  unfoldable pub detect :
      ℕ
      → ℕ
      → Option (TransportReply F)
      → Option (TransportReply F)
      → Detector F
      → Detector F × TransportReply F
  unfolding try_transports
  detect max_stale now api exec d =
      try_transports max_stale now (("api", api) ∷ ("exec", exec) ∷ []) none d
