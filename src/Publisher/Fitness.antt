-- ===== src/Publisher/Fitness.antt =====
-- Publisher and ModelClaim: how the claims' classes, selectors and evaluation see what
-- BuildDevices publishes.
use llmfit_dra.Prelude.{
  String, ℕ, ◌≡◌, ◌^◌, ◌*◌, ◌<◌, Option, some, List, Bool, true, false, not, ◌&&◌, ◌||◌,
  if◌then◌else◌, eqb, arith, is_some, refl, All,
}
use llmfit_dra.Prelude.Maps.{lookup}
use llmfit_dra.Prelude.Int64.{pos}
use llmfit_dra.Resource.{Device, DeviceAttribute, string_attr, bool_at}
use llmfit_dra.Llmfit.{FloatOps}
use llmfit_dra.Probe.{Kind, kind_text, ProbeDevice}
use llmfit_dra.ModelClaim.Backend.{driver_domain, gpu_class, kind_for_class}
use llmfit_dra.ModelClaim.Bounds.{Bounds}
use llmfit_dra.ModelClaim.Cel.{meaning, of_bool}
use llmfit_dra.ModelClaim.Cel.Fit.{fit_expr}
use llmfit_dra.ModelClaim.Cel.Agrees.{fit_expr-fits}
use llmfit_dra.ModelClaim.Satisfiable.Assess.{
  Query, skipped, excluded, eligible, standing, kind_matches, vendor_managed, assess, fits,
}
use llmfit_dra.Publisher.Match.{GpuCounts, is_gpu}
use llmfit_dra.Publisher.Attributes.{Capability}
use llmfit_dra.Publisher.Build.{
  Sources, fitness_only, preparable, pool_bytes, published, build_devices,
}
use llmfit_dra.Publisher.Names.{build_devices-All}
use llmfit_dra.Publisher.Schema.{published-typed, well_typed-IsTyped}
use llmfit_dra.Publisher.Marks.{HasMarks, mark_of, published-HasMarks}

gpu_class-kind :
    (k : Kind) → kind_matches (kind_for_class gpu_class) (some (kind_text k)) ≡ is_gpu k
unfolding kind_text kind_for_class kind_matches
gpu_class-kind Kind.kind_gpu = refl
gpu_class-kind Kind.kind_cpu = refl
gpu_class-kind Kind.kind_npu = refl
gpu_class-kind Kind.kind_nic = refl

marked-managed :
    (managed : Bool) (dev : Device)
    → lookup "vendorManaged" dev.attributes ≡ mark_of managed
    → vendor_managed dev ≡ managed
unfolding vendor_managed
marked-managed true dev h = ground (arith, h)
marked-managed false dev h = ground (arith, h)

-- How the classes see a device with the marks of a kind.
marked-standing :
    (k : Kind) (managed : Bool) (h : Option DeviceAttribute) (dev : Device)
    → HasMarks (some (string_attr (kind_text k))) h (mark_of managed) dev.attributes
    → standing gpu_class dev
        ≡ (if is_gpu k then (if managed then excluded else eligible) else skipped)
      × standing driver_domain dev ≡ (if managed then excluded else eligible)
unfolding standing kind_for_class kind_matches
marked-standing k managed h dev marks = (
  ground (arith, marks.kind_at, marked-managed managed dev marks.managed_at, gpu_class-kind k),
  ground (arith, marks.kind_at, marked-managed managed dev marks.managed_at),
)

-- What any device that the evaluation admits has.
fits-needs :
    (q : Query) (dev : Device)
    → fits (assess q dev) ≡ true
    → bool_at dev.attributes "healthy" ≡ some true × is_some (lookup "memory" dev.capacity) ≡ true
unfolding fits assess
fits-needs q dev h = ground arith

-- The memory that is published for a capability.
abbrev pool_or : Capability → ProbeDevice → ℕ → ℕ
pool_or cap d ram =
    if eqb cap.mem_bytes 0 then pool_bytes cap.unified d.vram_bytes ram else cap.mem_bytes

module _ {F : Type 0} (ops : FloatOps F) (src : Sources F) where
  -- What the evaluation makes of the kind and the mark of a published device, before it reads the
  -- health and the bounds.
  pub published-standing :
      (counts : GpuCounts) (d : ProbeDevice)
      → (standing gpu_class (published ops src counts d) ≡ (
          if is_gpu d.kind
          then (if src.opts.vendor_managed_gpus || not (preparable d.driver)
              then excluded
              else eligible)
          else skipped))
        × (standing driver_domain (published ops src counts d) ≡ (
            if is_gpu d.kind && (src.opts.vendor_managed_gpus || not (preparable d.driver))
            then excluded
            else eligible))
  published-standing counts d = ground (
    arith,
    marked-standing d.kind (fitness_only src.opts d) _ (published ops src counts d)
        (published-HasMarks ops src counts d),
  )

  -- A claim's selector and the static evaluation agree on every published device: for bounds in
  -- the int64 range and a compute floor that is not negative the selector ends in no runtime error,
  -- and holds exactly when the evaluation admits the device.
  pub build_devices-agrees :
      (b : Bounds) (class : String) (c : ℕ) (devices : List ProbeDevice)
      → b.memory_gi * 2 ^ 30 < 2 ^ 63
      → b.min_bandwidth_gbs < 2 ^ 63
      → All
          (λ dev.
            meaning (fit_expr b class (pos c)) dev
            ≡ of_bool
                (fits (assess (record { bounds = b; class = class; min_compute = pos c }) dev)))
          (build_devices ops devices src)
  build_devices-agrees b class c devices hm hb =
      build_devices-All ops src _ devices
        (λ d. fit_expr-fits b class c _ hm hb (well_typed-IsTyped _ (published-typed ops src _ d)))
