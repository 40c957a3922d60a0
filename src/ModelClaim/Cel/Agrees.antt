-- ===== src/ModelClaim/Cel/Agrees.antt =====
-- FitCEL of template.go and the tests of EvaluateSlices, on one device.
use llmfit_dra.Prelude.{String, ℕ, ◌*◌, ◌^◌, ◌<◌, ap, ◌≡◌, true, arith, is_some, Option, none, some}
use llmfit_dra.Prelude.Maps.{lookup}
use llmfit_dra.Prelude.Int64.{pos, mul64-pos, of_u64-pos}
use llmfit_dra.Resource.{Device, DeviceAttribute}
use llmfit_dra.ModelClaim.Bounds.{Bounds}
use llmfit_dra.ModelClaim.Cel.{meaning, of_bool}
use llmfit_dra.ModelClaim.Cel.Fit.{fit_expr}
use llmfit_dra.ModelClaim.Satisfiable.Assess.{mem_floor, assess, fits}

-- The attributes that the driver publishes have the types that it declares.
abbrev pub IntTyped : Option DeviceAttribute → Type 0
IntTyped none = Unit
IntTyped (some a) = is_some a.int_value ≡ true

abbrev pub BoolTyped : Option DeviceAttribute → Type 0
BoolTyped none = Unit
BoolTyped (some a) = is_some a.bool_value ≡ true

pub record IsTyped (dev : Device) : Type 0 where
  pub bandwidth : IntTyped (lookup "memoryBandwidthGBs" dev.attributes)
  pub compute : IntTyped (lookup "computeTFLOPS" dev.attributes)
  pub healthy : BoolTyped (lookup "healthy" dev.attributes)

mem_floor_lem :
    (b : Bounds) → b.memory_gi * 2 ^ 30 < 2 ^ 63 → mem_floor b ≡ pos (b.memory_gi * 2 ^ 30)
unfolding mem_floor
mem_floor_lem b h =
    rw
      (
        of_u64-pos b.memory_gi (omega arith),
        mul64-pos b.memory_gi 1024 (omega arith),
        mul64-pos (b.memory_gi * 1024) 1024 (omega arith),
        mul64-pos (b.memory_gi * 1024 * 1024) 1024 (omega arith),
      )
      (ap pos (omega arith))

-- On a device whose attributes have the published types, within the int64 range, and for a compute
-- floor that is not negative, the claim's selector ends in no runtime error, and holds exactly when
-- the static evaluation admits the device.
pub fit_expr-fits :
    (b : Bounds) (class : String) (c : ℕ) (dev : Device)
    → b.memory_gi * 2 ^ 30 < 2 ^ 63
    → b.min_bandwidth_gbs < 2 ^ 63
    → IsTyped dev
    → meaning (fit_expr b class (pos c)) dev
      ≡ of_bool (fits (assess (record { bounds = b; class = class; min_compute = pos c }) dev))
unfolding meaning assess fits
fit_expr-fits b class c dev hm hb typed =
    ground (arith, mem_floor_lem b hm, of_u64-pos b.min_bandwidth_gbs hb)
