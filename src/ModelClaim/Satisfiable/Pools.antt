-- ===== src/ModelClaim/Satisfiable/Pools.antt =====
-- satisfiable.go: which devices are held, and which slices of a pool are current.
pub mod Laws
use Prim.Native.String.{◌++◌}
use llmfit_dra.Prelude.{
  String, Option, none, some, List, [], ◌∷◌, Bool, true, false, not, ◌==◌, if◌then◌else◌,
}
use llmfit_dra.Prelude.Maps.{GoMap, lookup, insert}
use llmfit_dra.Prelude.Int64.{ℤ, pos, ltb64}
use llmfit_dra.Resource.{ResourceSlice, ResourceClaim, AllocationResult}

-- The inner loop of `AllocatedDevices`, over one claim's results.
unfoldable pub hold_results : String → String → List AllocationResult → GoMap String → GoMap String
hold_results driver holder [] held = held
hold_results driver holder (r ∷ rest) held =
    hold_results driver holder rest
      (if r.driver == driver then insert (r.pool ++ "/" ++ r.device) holder held else held)

unfoldable pub hold_claim :
    String → ResourceClaim → Option (List AllocationResult) → GoMap String → GoMap String
hold_claim driver rc none held = held
hold_claim driver rc (some results) held =
    hold_results driver (rc.namespace ++ "/" ++ rc.name) results held

unfoldable pub hold_claims : String → List ResourceClaim → GoMap String → GoMap String
hold_claims driver [] held = held
hold_claims driver (rc ∷ rest) held =
    hold_claims driver rest (hold_claim driver rc rc.allocation held)

-- `AllocatedDevices`
unfoldable pub allocated_devices : List ResourceClaim → String → GoMap String
unfolding hold_results hold_claim hold_claims
allocated_devices claims driver = hold_claims driver claims []

-- A missing pool reads as generation 0.
abbrev pub gen_of : String → GoMap ℤ → ℤ
gen_of pool gens = elim (lookup pool gens) [ none ↦ pos 0 | some g ↦ g ]

-- One round of the loop of `currentPoolGens`.
unfoldable pub raise_gen : String → ResourceSlice → GoMap ℤ → GoMap ℤ
raise_gen driver slice gens =
    if slice.driver == driver
    then (if ltb64 (gen_of slice.pool_name gens) slice.pool_generation
        then insert slice.pool_name slice.pool_generation gens
        else gens)
    else gens

raise_gens : String → List ResourceSlice → GoMap ℤ → GoMap ℤ
raise_gens driver [] gens = gens
raise_gens driver (slice ∷ rest) gens = raise_gens driver rest (raise_gen driver slice gens)

-- `currentPoolGens`
unfoldable pub current_pool_gens : List ResourceSlice → String → GoMap ℤ
unfolding raise_gen raise_gens
current_pool_gens slices driver = raise_gens driver slices []

-- The two guards at the head of the slice loops: a slice of the driver that no newer generation
-- of its pool has superseded.
unfoldable pub is_current : String → GoMap ℤ → ResourceSlice → Bool
is_current driver gens slice =
    if slice.driver == driver
    then not (ltb64 slice.pool_generation (gen_of slice.pool_name gens))
    else false
