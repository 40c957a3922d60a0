-- ===== src/Publisher/Classes.antt =====
-- deploy/deviceclass.yaml: the shipped DeviceClasses, and how they see what BuildDevices publishes.
-- Their first test, of the driver, holds on every device of the driver's slices.
use llmfit_dra.Prelude.{
  String, ◌≡◌, refl, none, some, List, [], ◌∷◌, Bool, true, false, not, ◌&&◌, ◌||◌, ◌==◌, ap, ◌∙◌,
}
use llmfit_dra.Prelude.Maps.{lookup, has_key}
use llmfit_dra.Resource.{Device, string_attr, bool_attr}
use llmfit_dra.Llmfit.{FloatOps}
use llmfit_dra.Probe.{Kind, kind_text, ProbeDevice, healthy}
use llmfit_dra.ModelClaim.Cel.{
  meaning, Truth, of_bool, holds, raises, truth_and, attribute_is, attribute_holds,
}
use llmfit_dra.Publisher.Match.{GpuCounts, is_gpu}
use llmfit_dra.Publisher.Build.{Sources, preparable, fitness_only, published}
use llmfit_dra.Publisher.Marks.{mark_of, published-HasMarks}

-- The tests of a class selector after that of the driver, joined by `&&`.
pub data Clause : Type 0 where
  kind_is : String → Clause
  not_vendor_managed : Clause
  is_healthy : Clause

abbrev clause_meaning : Clause → Device → Truth
clause_meaning (kind_is k) dev = meaning (attribute_is "kind" k) dev
clause_meaning not_vendor_managed dev = of_bool (not (has_key "vendorManaged" dev.attributes))
clause_meaning is_healthy dev = meaning (attribute_holds "healthy") dev

abbrev pub class_meaning : List Clause → Device → Truth
class_meaning [] dev = holds
class_meaning (c ∷ []) dev = clause_meaning c dev
class_meaning (c ∷ d ∷ rest) dev = truth_and (clause_meaning c dev) (class_meaning (d ∷ rest) dev)

abbrev pub any_device_class : List Clause
any_device_class = not_vendor_managed ∷ is_healthy ∷ []

abbrev pub gpu_device_class : List Clause
gpu_device_class = kind_is "gpu" ∷ not_vendor_managed ∷ is_healthy ∷ []

abbrev pub npu_device_class : List Clause
npu_device_class = kind_is "npu" ∷ is_healthy ∷ []

abbrev pub cpu_device_class : List Clause
cpu_device_class = kind_is "cpu" ∷ []

abbrev pub nic_device_class : List Clause
nic_device_class = kind_is "nic" ∷ is_healthy ∷ []

abbrev of_kind : Kind → Kind → Bool
of_kind Kind.kind_gpu Kind.kind_gpu = true
of_kind Kind.kind_npu Kind.kind_npu = true
of_kind Kind.kind_cpu Kind.kind_cpu = true
of_kind Kind.kind_nic Kind.kind_nic = true
of_kind _ _ = false

kind_cases : (want k : Kind) → of_bool (kind_text k == kind_text want) ≡ of_bool (of_kind want k)
unfolding kind_text
kind_cases Kind.kind_gpu Kind.kind_gpu = refl
kind_cases Kind.kind_gpu Kind.kind_npu = refl
kind_cases Kind.kind_gpu Kind.kind_cpu = refl
kind_cases Kind.kind_gpu Kind.kind_nic = refl
kind_cases Kind.kind_npu Kind.kind_gpu = refl
kind_cases Kind.kind_npu Kind.kind_npu = refl
kind_cases Kind.kind_npu Kind.kind_cpu = refl
kind_cases Kind.kind_npu Kind.kind_nic = refl
kind_cases Kind.kind_cpu Kind.kind_gpu = refl
kind_cases Kind.kind_cpu Kind.kind_npu = refl
kind_cases Kind.kind_cpu Kind.kind_cpu = refl
kind_cases Kind.kind_cpu Kind.kind_nic = refl
kind_cases Kind.kind_nic Kind.kind_gpu = refl
kind_cases Kind.kind_nic Kind.kind_npu = refl
kind_cases Kind.kind_nic Kind.kind_cpu = refl
kind_cases Kind.kind_nic Kind.kind_nic = refl

kind_clause :
    (want k : Kind) (dev : Device)
    → lookup "kind" dev.attributes ≡ some (string_attr (kind_text k))
    → clause_meaning (kind_is (kind_text want)) dev ≡ of_bool (of_kind want k)
unfolding meaning
kind_clause want k dev h =
    ap
      (λ o. elim o [
        | none ↦ raises
        | some a ↦ elim a.string_value [ none ↦ raises | some v ↦ of_bool (v == kind_text want) ]
      ])
      h
    ∙ kind_cases want k

managed_clause :
    (managed : Bool) (dev : Device)
    → lookup "vendorManaged" dev.attributes ≡ mark_of managed
    → clause_meaning not_vendor_managed dev ≡ of_bool (not managed)
managed_clause true dev h = rw h refl
managed_clause false dev h = rw h refl

healthy_clause :
    (ok : Bool) (dev : Device)
    → lookup "healthy" dev.attributes ≡ some (bool_attr ok)
    → clause_meaning is_healthy dev ≡ of_bool ok
unfolding meaning
healthy_clause ok dev h =
    ap
      (λ o. elim o [
        | none ↦ raises
        | some a ↦ elim a.bool_value [ none ↦ raises | some v ↦ of_bool v ]
      ])
      h

both : (x y : Truth) (a b : Bool) → x ≡ of_bool a → y ≡ of_bool b → truth_and x y ≡ of_bool (a && b)
both x y true b h k = rw h k
both x y false b h k = rw h refl

module _ {F : Type 0} (ops : FloatOps F) (src : Sources F) (counts : GpuCounts)
    (d : ProbeDevice) where
  -- A GPU that a vendor's driver owns, or whose kernel driver prepare cannot serve.
  abbrev pub is_demoted : Bool
  is_demoted = is_gpu d.kind && (src.opts.vendor_managed_gpus || not (preparable d.driver))

  -- What the shipped classes admit of the published device, without a runtime error.
  pub record InClasses : Type 0 where
    pub in_any :
        class_meaning any_device_class (published ops src counts d)
        ≡ of_bool (not is_demoted && (healthy d).0)
    pub in_gpu :
        class_meaning gpu_device_class (published ops src counts d)
        ≡ of_bool (of_kind Kind.kind_gpu d.kind && (not is_demoted && (healthy d).0))
    pub in_npu :
        class_meaning npu_device_class (published ops src counts d)
        ≡ of_bool (of_kind Kind.kind_npu d.kind && (healthy d).0)
    pub in_cpu :
        class_meaning cpu_device_class (published ops src counts d)
        ≡ of_bool (of_kind Kind.kind_cpu d.kind)
    pub in_nic :
        class_meaning nic_device_class (published ops src counts d)
        ≡ of_bool (of_kind Kind.kind_nic d.kind && (healthy d).0)

  -- Of the published devices the shipped classes admit, without a runtime error: llmfit.ai the healthy
  -- ones that are not demoted, gpu.llmfit.ai the GPUs among them, npu.llmfit.ai and nic.llmfit.ai the
  -- healthy ones of their kind, and cpu.llmfit.ai the CPU. A GPU is demoted if a vendor's driver owns
  -- the node's GPUs or its kernel driver is none that prepare can serve.
  pub published-InClasses : InClasses
  unfolding kind_text
  published-InClasses =
      let dev = published ops src counts d in
      let marks = published-HasMarks ops src counts d in
      let ok = healthy_clause (healthy d).0 dev marks.healthy_at in
      let free = managed_clause (fitness_only src.opts d) dev marks.managed_at in
      let kind : (want : Kind)
          → clause_meaning (kind_is (kind_text want)) dev ≡ of_bool (of_kind want d.kind) =
        λ want. kind_clause want d.kind dev marks.kind_at in
      record {
        in_any = both _ _ _ _ free ok;
        in_gpu = both _ _ _ _ (kind Kind.kind_gpu) (both _ _ _ _ free ok);
        in_npu = both _ _ _ _ (kind Kind.kind_npu) ok;
        in_cpu = kind Kind.kind_cpu;
        in_nic = both _ _ _ _ (kind Kind.kind_nic) ok;
      }
