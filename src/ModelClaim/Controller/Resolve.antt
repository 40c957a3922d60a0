-- ===== src/ModelClaim/Controller/Resolve.antt =====
-- The `resolve` method: bounds memoized by spec tuple, with a time to live.
pub mod Cache
use Prim.Native.String.{◌++◌}
use llmfit_dra.Prelude.{
  String, ℕ, ◌+◌, ◌*◌, ◌^◌, Option, none, some, [], if◌then◌else◌, ltb, leb, length,
}
use llmfit_dra.Prelude.Maps.{GoMap, lookup, insert}
use llmfit_dra.Prelude.Int64.{ℤ, decimal64}
use llmfit_dra.ModelClaim.Bounds.{Bounds}
use llmfit_dra.ModelClaim.Controller.Act.{
  Act, Controller, CacheEntry, Reply, ok, err, resolver_called, record_call,
}
use llmfit_dra.ModelClaim.Controller.Env.{Env}

-- Ten minutes, in nanoseconds.
abbrev pub resolve_cache_ttl : ℕ
resolve_cache_ttl = 600 * 10 ^ 9

abbrev pub resolve_key : String → String → String → ℤ → String
resolve_key model min_tps quant efficiency =
    model ++ "|" ++ min_tps ++ "|" ++ quant ++ "|" ++ decimal64 efficiency

-- The cached bounds, if they have not expired.
unfoldable pub fresh_bounds : ℕ → Option CacheEntry → Option Bounds
fresh_bounds now none = none
fresh_bounds now (some e) = if ltb now e.expires then some e.bounds else none

unfoldable pub store_bounds : ℕ → String → Bounds → GoMap CacheEntry → GoMap CacheEntry
store_bounds now key bounds cache =
    let room : GoMap CacheEntry = if leb 512 (length cache) then [] else cache in
    insert key (record { bounds = bounds; expires = now + resolve_cache_ttl }) room

unfoldable pub keep_answer : ℕ → String → Reply Bounds → Controller → Controller
keep_answer now key (err e) c = c
keep_answer now key (ok b) c = record c { resolve_cache = store_bounds now key b c.resolve_cache }

-- The error is a value here: the caller reports it before it returns it.
unfoldable pub resolve : Env → String → String → String → ℤ → Act (Reply Bounds)
unfolding fresh_bounds store_bounds keep_answer
resolve env model min_tps quant efficiency c =
    let key = resolve_key model min_tps quant efficiency in
    elim (fresh_bounds env.now (lookup key c.resolve_cache)) [
      | some b ↦ (ok (ok b), c)
      | none ↦
          let answer = env.resolver model min_tps quant efficiency in
          (ok answer, keep_answer env.now key answer (record_call (resolver_called model) c))
    ]
