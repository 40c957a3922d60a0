-- ===== src/Probe/Functions.antt =====
-- Walk of probe.go: what a PCI function of the fabric becomes.
use mathlib.Core.List.{◌++◌}
use llmfit_dra.Prelude.{
  String, ℕ, ◌+◌, ◌≤◌, ◌<◌, ◌≡◌, Option, none, some, List, [], ◌∷◌, Bool, false, ◌==◌, arith, refl,
  subst, ◌∙◌, count, count-append,
}
use llmfit_dra.Prelude.Maps.{lookup}
use llmfit_dra.Probe.{Kind, ProbeDevice, drop_fabric_functions}
use llmfit_dra.Probe.Sysfs.{Sysfs, DirAnswer, entries, absent, unreadable, join_path}
use llmfit_dra.Probe.Devices.{class_devices, walk_class, walk_infiniband, cpu_with, cpu_device}
use llmfit_dra.Probe.Walk.{fabric_addresses, sort_devices, join_devices, finish_walk, walk}
use llmfit_dra.Probe.Fabric.{
  compute_at, nic_at, count-sort_devices, fabric_addresses-key, dropped-compute,
  count-drop_fabric_functions, gpu-kind, npu-kind, class_devices-nic, nic_devices-compute,
  nic_devices-once,
}

-- A PCI address is that of at most one NIC, and if of one then of no GPU or NPU.
pub record IsClassified (addr : String) (devices : List ProbeDevice) : Type 0 where
  pub once : count (nic_at addr) devices ≤ 1
  pub apart : 0 < count (nic_at addr) devices → count (compute_at addr) devices ≡ 0

abbrev pub IfSome {ℓ} : {A : Type ℓ} → (A → Type 0) → Option A → Type 0
IfSome P none = Unit
IfSome P (some x) = P x

abbrev NoNics : String → List ProbeDevice → Type 0
NoNics addr ds = count (nic_at addr) ds ≡ 0

abbrev OnlyNics : String → List ProbeDevice → Type 0
OnlyNics addr ds = (count (compute_at addr) ds ≡ 0) × (count (nic_at addr) ds ≤ 1)

abbrev IsCpu : ProbeDevice → Type 0
IsCpu d = d.kind ≡ Kind.kind_cpu

count-four :
    (p : ProbeDevice → Bool) (ws xs ys zs : List ProbeDevice)
    → count p (ws ++ xs ++ ys ++ zs) ≡ count p ws + (count p xs + (count p ys + count p zs))
count-four p ws xs ys zs =
    omega (
      arith,
      count-append p (ws ++ xs ++ ys) zs,
      count-append p (ws ++ xs) ys,
      count-append p ws xs,
    )

count-join_devices :
    (p : ProbeDevice → Bool) (gpus npus nics : List ProbeDevice) (cpu : ProbeDevice)
    → count p (join_devices gpus npus nics cpu)
      ≡ count p (drop_fabric_functions gpus (fabric_addresses nics []))
        + (count p (drop_fabric_functions npus (fabric_addresses nics []))
            + (count p nics + count p (cpu ∷ [])))
unfolding join_devices
count-join_devices p gpus npus nics cpu = count-four p _ _ nics (cpu ∷ [])

pub count-joined :
    (p : ProbeDevice → Bool) (gpus npus nics : List ProbeDevice) (cpu : ProbeDevice)
    → count p (sort_devices (join_devices gpus npus nics cpu))
      ≡ count p (drop_fabric_functions gpus (fabric_addresses nics []))
        + (count p (drop_fabric_functions npus (fabric_addresses nics []))
            + (count p nics + count p (cpu ∷ [])))
count-joined p gpus npus nics cpu =
    count-sort_devices p (join_devices gpus npus nics cpu) ∙ count-join_devices p gpus npus nics cpu

joined-IsClassified :
    (addr : String) (gpus npus nics : List ProbeDevice) (cpu : ProbeDevice)
    → (addr == "") ≡ false
    → NoNics addr gpus
    → NoNics addr npus
    → OnlyNics addr nics
    → IsCpu cpu
    → IsClassified addr (sort_devices (join_devices gpus npus nics cpu))
joined-IsClassified addr gpus npus nics cpu h no_gpu_nics no_npu_nics only is_cpu =
    let fabric = fabric_addresses nics [] in
    record {
      once = ground (
        arith,
        count-joined (nic_at addr) gpus npus nics cpu,
        count-drop_fabric_functions (nic_at addr) gpus fabric,
        count-drop_fabric_functions (nic_at addr) npus fabric,
      );
      apart = λ found. ground (
        arith,
        count-joined (nic_at addr) gpus npus nics cpu,
        count-joined (compute_at addr) gpus npus nics cpu,
        count-drop_fabric_functions (nic_at addr) gpus fabric,
        count-drop_fabric_functions (nic_at addr) npus fabric,
        fabric_addresses-key addr nics [] h,
        dropped-compute addr gpus fabric h,
        dropped-compute addr npus fabric h,
      );
    }

finished-IsClassified :
    (addr : String) (nics gpus npus : Option (List ProbeDevice)) (cpu : Option ProbeDevice)
    (devices : List ProbeDevice)
    → (addr == "") ≡ false
    → IfSome (OnlyNics addr) nics
    → IfSome (NoNics addr) gpus
    → IfSome (NoNics addr) npus
    → IfSome IsCpu cpu
    → finish_walk nics gpus npus cpu ≡ some devices
    → IsClassified addr devices
unfolding finish_walk
finished-IsClassified addr none gpus npus cpu devices h n g u c e = absurd (ground arith)
finished-IsClassified addr (some nics) none npus cpu devices h n g u c e = absurd (ground arith)
finished-IsClassified addr (some nics) (some gpus) none cpu devices h n g u c e =
    absurd (ground arith)
finished-IsClassified addr (some nics) (some gpus) (some npus) none devices h n g u c e =
    absurd (ground arith)
finished-IsClassified addr (some nics) (some gpus) (some npus) (some cpu) devices h n g u c e =
    subst (IsClassified addr) (ground arith) (joined-IsClassified addr gpus npus nics cpu h g u n c)

module _ (fs : Sysfs) where
  walk_class-nics :
      (k : Kind) (addr dir prefix : String) (answer : DirAnswer)
      → ((names : List String) → NoNics addr (class_devices fs k dir prefix names 0))
      → IfSome (NoNics addr) (walk_class fs k dir prefix answer)
  unfolding walk_class
  walk_class-nics k addr dir prefix absent h = refl
  walk_class-nics k addr dir prefix unreadable h = tt
  walk_class-nics k addr dir prefix (entries names) h = h names

  walk_infiniband-nics :
      (addr root : String) (answer : DirAnswer)
      → (addr == "") ≡ false
      → IfSome (OnlyNics addr) (walk_infiniband fs root answer)
  unfolding walk_infiniband lookup
  walk_infiniband-nics addr root absent h = (refl, omega arith)
  walk_infiniband-nics addr root unreadable h = tt
  walk_infiniband-nics addr root (entries names) h =
      let dir = join_path root "class/infiniband" in
      (
        nic_devices-compute fs addr root dir names 0 [],
        ground (arith, nic_devices-once fs addr root dir names 0 [] h),
      )

  cpu_with-IsCpu : (proc_root : String) (ram : Option ℕ) → IfSome IsCpu (cpu_with fs proc_root ram)
  unfolding cpu_with
  cpu_with-IsCpu proc_root none = tt
  cpu_with-IsCpu proc_root (some ram) = refl

  -- When Walk succeeds, a PCI address is that of at most one NIC, and where it is a NIC's it is no
  -- GPU's and no NPU's.
  pub walk-IsClassified :
      (sys_root proc_root : String) (devices : List ProbeDevice) (addr : String)
      → (addr == "") ≡ false
      → walk fs sys_root proc_root ≡ some devices
      → IsClassified addr devices
  unfolding walk cpu_device
  walk-IsClassified sys_root proc_root devices addr h walked =
      finished-IsClassified addr _ _ _ _ devices h (walk_infiniband-nics addr sys_root _ h)
        (walk_class-nics Kind.kind_gpu addr _ "card" _
          (λ names. class_devices-nic fs Kind.kind_gpu refl (gpu-kind fs) addr _ "card" names 0))
        (walk_class-nics Kind.kind_npu addr _ "accel" _
          (λ names. class_devices-nic fs Kind.kind_npu refl (npu-kind fs) addr _ "accel" names 0))
        (cpu_with-IsCpu proc_root _) walked
