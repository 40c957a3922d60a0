-- ===== src/Llmfit.antt =====
-- internal/llmfit/llmfit.go: what the llmfit binary reports, and the vendor that a GPU's name tells.
-- The floating-point numbers of the report are a parameter, with the operations that the program
-- applies to them.
pub mod Detector
pub mod Transport
use Prim.Native.String.{◌++◌}
use llmfit_dra.Prelude.{
  String, ℕ, Option, none, some, List, [], ◌∷◌, Bool, true, false, ◌&&◌, ◌||◌, ◌==◌, if◌then◌else◌,
}
use llmfit_dra.Prelude.Text.{codes, lower_codes, contains_codes}
use llmfit_dra.Prelude.Int64.{ℤ}

-- `x > 0`, `x * 1024`, `int64(x)` and `uint64(x)` of a float64.
pub record FloatOps (F : Type 0) : Type 0 where
  pub positive : F → Bool
  pub times_1024 : F → F
  pub to_i64 : F → ℤ
  pub to_u64 : F → ℕ

pub record Gpu (F : Type 0) : Type 0 where
  pub name : String
  pub vram_gb : Option F
  pub backend : String
  pub count : ℕ
  pub unified_memory : Bool
  pub memory_bandwidth_gbps : Option F

-- The fields of `System` that the program reads.
pub record System (F : Type 0) : Type 0 where
  pub total_ram_gb : F
  pub cpu_name : String
  pub gpus : List (Gpu F)

module _ {F : Type 0} where
  abbrev pub no_gpus : List (Gpu F) → Bool
  no_gpus [] = true
  no_gpus (g ∷ gs) = false

  -- `Parse` after the JSON is decoded: `none` where it fails.
  unfoldable pub parsed : Option (System F) → Option (System F)
  parsed none = none
  parsed (some s) = if s.cpu_name == "" && no_gpus s.gpus then none else some s

  -- `VendorOf`
  unfoldable pub vendor_of : Gpu F → String
  unfolding codes lower_codes contains_codes
  vendor_of g =
      let n = lower_codes (g.name ++ " " ++ g.backend) in
      let says : String → Bool = λ w. contains_codes n (codes w) in
      if says "nvidia" || says "geforce" || says "cuda"
      then "nvidia"
      else if says "amd" || says "radeon" || says "rocm" || says "instinct"
      then "amd"
      else if says "intel" || says "arc" || says "sycl"
      then "intel"
      else if says "apple" || says "metal"
      then "apple"
      else ""
