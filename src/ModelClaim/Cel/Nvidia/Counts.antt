-- ===== src/ModelClaim/Cel/Nvidia/Counts.antt =====
-- What EvaluateNvidiaSlices counts, in terms of the selector of NvidiaFitCEL.
use llmfit_dra.Prelude.{
  String, ◌≡◌, refl, sym, ap, ◌∙◌, none, List, [], ◌∷◌, Bool, true, All, length, select, not, arith,
}
use llmfit_dra.Prelude.Maps.{GoMap, lookup, distinct_keys}
use llmfit_dra.Prelude.Int64.{ℤ}
use llmfit_dra.Index.{NvidiaBoard, load_nvidia_boards}
use llmfit_dra.Resource.{ResourceSlice, Device}
use llmfit_dra.ModelClaim.Backend.{nvidia_driver_domain}
use llmfit_dra.ModelClaim.Bounds.{Bounds}
use llmfit_dra.ModelClaim.Cel.{of_bool, meaning}
use llmfit_dra.ModelClaim.Cel.Nvidia.Render.{nvidia_expr}
use llmfit_dra.ModelClaim.Cel.Nvidia.Floor.{HasFloor}
use llmfit_dra.ModelClaim.Cel.Nvidia.Meaning.{is_holds}
use llmfit_dra.ModelClaim.Cel.Nvidia.Agrees.{IsPublished, query, nvidia_expr-meets}
use llmfit_dra.ModelClaim.Satisfiable.Pools.{current_pool_gens}
use llmfit_dra.ModelClaim.Satisfiable.Score.{Float}
use llmfit_dra.ModelClaim.Satisfiable.Tally.Matching.{matches, matching, is_held}
use llmfit_dra.ModelClaim.Satisfiable.Nvidia.Scan.{evaluate_nvidia_slices}
use llmfit_dra.ModelClaim.Satisfiable.Nvidia.Counts.{meets_nvidia, evaluate_nvidia_slices_counts}

module _ (p q : Device → Bool) (P : Device → Type 0)
    (same : (dev : Device) → P dev → p dev ≡ q dev) where
  matches-congr :
      (slice : ResourceSlice) (devs : List Device)
      → All P devs
      → matches p slice devs ≡ matches q slice devs
  matches-congr slice [] every = refl
  matches-congr slice (dev ∷ rest) every =
      ground (arith, same dev every.0, matches-congr slice rest every.1)

  matching-congr :
      (driver : String) (gens : GoMap ℤ) (slices : List ResourceSlice)
      → All (λ s. All P s.devices) slices
      → matching p driver gens slices ≡ matching q driver gens slices
  matching-congr driver gens [] every = refl
  matching-congr driver gens (slice ∷ rest) every =
      ground
        (arith, matches-congr slice slice.devices every.0, matching-congr driver gens rest every.1)

-- The devices of the current slices that the scheduler admits: those on which the selector holds.
abbrev pub selected :
    List ResourceSlice
    → Bounds
    → String
    → ℤ
    → GoMap NvidiaBoard
    → String
    → List (ResourceSlice × Device)
selected slices b class c parsed hash =
    matching
      (λ dev. is_holds (meaning (nvidia_expr b (load_nvidia_boards parsed hash) class c) dev))
      nvidia_driver_domain (current_pool_gens slices nvidia_driver_domain) slices

pub is_holds-of_bool : (x : Bool) → is_holds (of_bool x) ≡ x
is_holds-of_bool true = refl
is_holds-of_bool x = ground arith

-- EvaluateNvidiaSlices counts exactly the devices of the current slices on which the claim's
-- selector holds, and those of them that no claim holds, where the devices are as the API server
-- publishes them, the memory floor is positive and in the int64 range, and the board table has one
-- entry for a product and none for the empty name.
pub evaluate_nvidia_slices-selected :
    (fl : Float) (quote : String → String) (slices : List ResourceSlice) (allocated : GoMap String)
    (b : Bounds) (class hash : String) (c : ℤ) (parsed : GoMap NvidiaBoard)
    → HasFloor b
    → distinct_keys parsed ≡ true
    → lookup "" parsed ≡ none
    → All (λ s. All IsPublished s.devices) slices
    → let result =
        evaluate_nvidia_slices fl quote slices allocated b class c
          (load_nvidia_boards parsed hash) in
      let found = selected slices b class c parsed hash in
      (result.devices ≡ length found)
      × (result.available ≡ length (select (λ e. not (is_held allocated e)) found))
evaluate_nvidia_slices-selected fl quote slices allocated b class hash c parsed h once unnamed
      every =
    let boards = load_nvidia_boards parsed hash in
    let counts = evaluate_nvidia_slices_counts fl quote slices allocated b class c boards in
    let same =
      matching-congr (meets_nvidia (query b class c) boards)
        (λ dev. is_holds (meaning (nvidia_expr b boards class c) dev)) IsPublished
        (λ dev ok. sym (
          ap is_holds (nvidia_expr-meets dev b class hash c parsed h once unnamed ok)
          ∙ is_holds-of_bool _))
        nvidia_driver_domain (current_pool_gens slices nvidia_driver_domain) slices every in
    (
      counts.0 ∙ ap length same,
      counts.1 ∙ ap (λ xs. length (select (λ e. not (is_held allocated e)) xs)) same,
    )
