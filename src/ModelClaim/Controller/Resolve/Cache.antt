-- ===== src/ModelClaim/Controller/Resolve/Cache.antt =====
-- The resolve cache: what it remembers, for how long, and how much.
use llmfit_dra.Prelude.{
  String, ℕ, ◌+◌, ◌≤◌, ◌<◌, ◌≡◌, refl, arith, length, none, some, ◌⊎◌, inl, inr, [],
}
use llmfit_dra.Prelude.Maps.{GoMap, lookup, lookup-insert_self, length-insert}
use llmfit_dra.Prelude.Int64.{ℤ}
use llmfit_dra.ModelClaim.Bounds.{Bounds}
use llmfit_dra.ModelClaim.Controller.Act.{Controller, CacheEntry, Reply, ok, err}
use llmfit_dra.ModelClaim.Controller.Env.{Env}
use llmfit_dra.ModelClaim.Controller.Resolve.{resolve, resolve_key, resolve_cache_ttl, store_bounds}

store_bounds-lookup :
    (now : ℕ) (key : String) (b : Bounds) (cache : GoMap CacheEntry)
    → lookup key (store_bounds now key b cache)
      ≡ some (record { bounds = b; expires = now + resolve_cache_ttl })
unfolding store_bounds
store_bounds-lookup now key b cache = lookup-insert_self key _ _

store_bounds-bounded :
    (now : ℕ) (key : String) (b : Bounds) (cache : GoMap CacheEntry)
    → length cache ≤ 512
    → length (store_bounds now key b cache) ≤ 512
unfolding store_bounds
store_bounds-bounded now key b cache h =
    let e : CacheEntry = record { bounds = b; expires = now + resolve_cache_ttl } in
    ground (arith, length-insert key e cache, length-insert key e [])

Reply-cases : (r : Reply Bounds) → ((b : Bounds) × (r ≡ ok b)) ⊎ ((e : String) × (r ≡ err e))
Reply-cases (ok b) = inl (b, refl)
Reply-cases (err e) = inr (e, refl)

-- Within ten minutes of an answer of the resolver for a tuple that was not cached, a pass for the
-- same tuple gets that answer from the cache, and makes no call.
pub resolve_remembers :
    (env later : Env) (model tps quant : String) (eff : ℤ) (b : Bounds) (c : Controller)
    → lookup (resolve_key model tps quant eff) c.resolve_cache ≡ none
    → env.resolver model tps quant eff ≡ ok b
    → later.now < env.now + resolve_cache_ttl
    → resolve later model tps quant eff (resolve env model tps quant eff c).1
      ≡ (ok (ok b), (resolve env model tps quant eff c).1)
unfolding resolve
resolve_remembers env later model tps quant eff b c miss answer soon =
    let key = resolve_key model tps quant eff in
    ground (arith, store_bounds-lookup env.now key b c.resolve_cache)

-- A failure of the resolver is not remembered.
pub resolve_error_not_cached :
    (env : Env) (model tps quant : String) (eff : ℤ) (e : String) (c : Controller)
    → env.resolver model tps quant eff ≡ err e
    → (resolve env model tps quant eff c).1.resolve_cache ≡ c.resolve_cache
unfolding resolve
resolve_error_not_cached env model tps quant eff e c failed = ground arith

-- A cache within 512 entries stays within 512 entries.
pub resolve_bounded :
    (env : Env) (model tps quant : String) (eff : ℤ) (c : Controller)
    → length c.resolve_cache ≤ 512
    → length (resolve env model tps quant eff c).1.resolve_cache ≤ 512
unfolding resolve
resolve_bounded env model tps quant eff c h =
    elim (Reply-cases (env.resolver model tps quant eff)) [
      | inl (b, answer) ↦
          ground (
            arith,
            store_bounds-bounded env.now (resolve_key model tps quant eff) b c.resolve_cache,
          )
      | inr (e, failed) ↦ ground arith
    ]
