-- ===== src/ModelClaim/Controller/Satisfied.antt =====
-- When the Satisfiable condition of the llmfit backend is True, in terms of the claim's selector.
use llmfit_dra.Prelude.{
  String, ℕ, ◌≡◌, none, some, List, Bool, true, false, not, ◌&&◌, ◌==◌, if◌then◌else◌, any, All,
}
use llmfit_dra.Prelude.Int64.{pos, leb64}
use llmfit_dra.Resource.{ResourceSlice, Device, string_at, bool_at}
use llmfit_dra.ModelClaim.Backend.{driver_domain, gpu_class, cpu_class, npu_class}
use llmfit_dra.ModelClaim.Bounds.{Bounds}
use llmfit_dra.ModelClaim.Cel.{meaning}
use llmfit_dra.ModelClaim.Cel.Fit.{fit_expr}
use llmfit_dra.ModelClaim.Cel.Agrees.{IsTyped}
use llmfit_dra.ModelClaim.Cel.Nvidia.Meaning.{is_holds}
use llmfit_dra.ModelClaim.Satisfiable.Pools.Laws.{supersedes}
use llmfit_dra.ModelClaim.Satisfiable.Assess.{Query, Standing, eligible}
use llmfit_dra.ModelClaim.Controller.Env.{Env}

abbrev has_kind : String → Device → Bool
has_kind k dev = elim (string_at dev.attributes "kind") [ none ↦ false | some t ↦ t == k ]

abbrev is_managed : Device → Bool
is_managed dev = elim (bool_at dev.attributes "vendorManaged") [ none ↦ false | some v ↦ v ]

-- The kind that a class of the driver has, and that the class of GPUs and the driver's own have no
-- device that a vendor's driver owns.
abbrev pub is_of_class : String → Device → Bool
is_of_class class dev =
    if class == gpu_class
    then has_kind "gpu" dev && not (is_managed dev)
    else if class == cpu_class
    then has_kind "cpu" dev
    else if class == npu_class
    then has_kind "npu" dev
    else not (class == driver_domain && is_managed dev)

-- A device of the class on which the claim's selector holds.
abbrev pub serves : Bounds → String → ℕ → Device → Bool
serves b class c dev = is_of_class class dev && is_holds (meaning (fit_expr b class (pos c)) dev)

-- A slice of the driver that no newer one of its pool supersedes, with such a device.
abbrev pub offers : List ResourceSlice → Bounds → String → ℕ → ResourceSlice → Bool
offers slices b class c s =
    (s.driver == driver_domain
      && not (any (supersedes driver_domain s.pool_name s.pool_generation) slices))
    && any (serves b class c) s.devices

-- A slice as the driver publishes it.
abbrev pub IsPublishedSlice : ResourceSlice → Type 0
IsPublishedSlice s = (leb64 (pos 0) s.pool_generation ≡ true) × All IsTyped s.devices

abbrev query : Bounds → String → ℕ → Query
query b class c = record { bounds = b; class = class; min_compute = pos c }

abbrev if_eligible : Standing → Bool → Bool
if_eligible eligible x = x
if_eligible _ x = false
