-- ===== src/ModelClaim/Satisfiable/Pools/Laws.antt =====
-- Which slices `currentPoolGens` leaves current.
use llmfit_dra.Prelude.{
  String, List, [], ◌∷◌, ◌≡◌, refl, Bool, true, arith, eq_iff, ◌==◌, any, ◌&&◌, ◌||◌, not, select,
}
use llmfit_dra.Prelude.Maps.{GoMap, lookup, lookup-insert}
use llmfit_dra.Prelude.Int64.{ℤ, pos, leb64, ltb64}
use llmfit_dra.Resource.{ResourceSlice}
use llmfit_dra.ModelClaim.Satisfiable.Pools.{
  gen_of, raise_gen, raise_gens, current_pool_gens, is_current,
}

-- A slice of the driver and the pool with a generation above `g`.
abbrev pub supersedes : String → String → ℤ → ResourceSlice → Bool
supersedes driver pool g s =
    s.driver == driver && (s.pool_name == pool && ltb64 g s.pool_generation)

module _ (driver pool : String) where
  raise_gen_lem :
      (s : ResourceSlice) (gens : GoMap ℤ) (g : ℤ)
      → ltb64 g (gen_of pool (raise_gen driver s gens))
        ≡ (ltb64 g (gen_of pool gens) || supersedes driver pool g s)
  unfolding raise_gen
  raise_gen_lem s gens g = ground (
    arith,
    lookup-insert s.pool_name pool s.pool_generation gens,
    eq_iff s.pool_name pool,
    eq_iff s.driver driver,
  )

  raise_gens_lem :
      (slices : List ResourceSlice) (gens : GoMap ℤ) (g : ℤ)
      → ltb64 g (gen_of pool (raise_gens driver slices gens))
        ≡ (ltb64 g (gen_of pool gens) || any (supersedes driver pool g) slices)
  unfolding raise_gens
  raise_gens_lem [] gens g = ground arith
  raise_gens_lem (s ∷ rest) gens g =
      rw (raise_gens_lem rest (raise_gen driver s gens) g, raise_gen_lem s gens g) (ground arith)

-- A slice whose generation is not negative is evaluated exactly when it is the driver's and no
-- slice of the driver and of its pool has a newer generation.
pub is_current_iff_newest :
    (driver : String) (slices : List ResourceSlice) (s : ResourceSlice)
    → leb64 (pos 0) s.pool_generation ≡ true
    → is_current driver (current_pool_gens slices driver) s
      ≡ (s.driver == driver && not (any (supersedes driver s.pool_name s.pool_generation) slices))
unfolding is_current current_pool_gens lookup
is_current_iff_newest driver slices s h =
    ground (arith, raise_gens_lem driver s.pool_name slices [] s.pool_generation)

-- The slices of a driver.
abbrev pub own : String → List ResourceSlice → List ResourceSlice
own driver = select (λ s. s.driver == driver)

raise_gens-own :
    (driver : String) (slices : List ResourceSlice) (gens : GoMap ℤ)
    → raise_gens driver slices gens ≡ raise_gens driver (own driver slices) gens
unfolding raise_gens raise_gen
raise_gens-own driver [] gens = refl
raise_gens-own driver (s ∷ rest) gens =
    ground (arith, raise_gens-own driver rest (raise_gen driver s gens))

-- The generations are those of the driver's own slices.
pub current_pool_gens-own :
    (driver : String) (slices : List ResourceSlice)
    → current_pool_gens slices driver ≡ current_pool_gens (own driver slices) driver
unfolding current_pool_gens
current_pool_gens-own driver slices = raise_gens-own driver slices []
