-- ===== src/Probe/Order.antt =====
-- Walk of probe.go: the order of the devices.
use llmfit_dra.Prelude.{
  String, ℕ, ◌+◌, ◌≤◌, ◌≡◌, Option, none, some, List, [], ◌∷◌, Bool, true, false, ◌&&◌, ◌||◌,
  if◌then◌else◌, ltb, leb, eqb, arith, refl, subst, count,
}
use llmfit_dra.Probe.{Kind, kind_text, ProbeDevice}
use llmfit_dra.Probe.Sysfs.{Sysfs}
use llmfit_dra.Probe.Devices.{cpu_with, cpu_device}
use llmfit_dra.Probe.Walk.{
  key_leb, device_leb, fabric_addresses, insert_device, sort_devices, join_devices, finish_walk,
  walk,
}
use llmfit_dra.Probe.Fabric.{gpu-kind, npu-kind}
use llmfit_dra.Probe.Functions.{IfSome, count-joined}
use llmfit_dra.Probe.Fabric.{count-drop_fabric_functions}
use llmfit_dra.Probe.Keys.{
  same_kind, at_key, HasKeys, walk_class-HasKeys, walk_infiniband-HasKeys, gpu-index, npu-index,
}

-- The names of the kinds in alphabetical order.
abbrev pub position : Kind → ℕ
position Kind.kind_cpu = 0
position Kind.kind_gpu = 1
position Kind.kind_nic = 2
position Kind.kind_npu = 3

-- First by kind, and within a kind by index.
unfoldable pub in_order : ProbeDevice → ProbeDevice → Bool
in_order d e =
    ltb (position d.kind) (position e.kind)
    || eqb (position d.kind) (position e.kind) && leb d.index e.index

-- No device before its predecessor.
abbrev pub after_head : ProbeDevice → List ProbeDevice → Bool
after_head d [] = true
after_head d (e ∷ rest) = in_order d e

abbrev pub is_sorted : List ProbeDevice → Bool
is_sorted [] = true
is_sorted (d ∷ rest) = after_head d rest && is_sorted rest

key_leb-position :
    (k l : Kind) (i j : ℕ)
    → key_leb k i l j ≡ (ltb (position k) (position l) || eqb (position k) (position l) && leb i j)
unfolding key_leb kind_text
key_leb-position Kind.kind_gpu Kind.kind_gpu i j = refl
key_leb-position Kind.kind_gpu Kind.kind_npu i j = refl
key_leb-position Kind.kind_gpu Kind.kind_cpu i j = refl
key_leb-position Kind.kind_gpu Kind.kind_nic i j = refl
key_leb-position Kind.kind_npu Kind.kind_gpu i j = refl
key_leb-position Kind.kind_npu Kind.kind_npu i j = refl
key_leb-position Kind.kind_npu Kind.kind_cpu i j = refl
key_leb-position Kind.kind_npu Kind.kind_nic i j = refl
key_leb-position Kind.kind_cpu Kind.kind_gpu i j = refl
key_leb-position Kind.kind_cpu Kind.kind_npu i j = refl
key_leb-position Kind.kind_cpu Kind.kind_cpu i j = refl
key_leb-position Kind.kind_cpu Kind.kind_nic i j = refl
key_leb-position Kind.kind_nic Kind.kind_gpu i j = refl
key_leb-position Kind.kind_nic Kind.kind_npu i j = refl
key_leb-position Kind.kind_nic Kind.kind_cpu i j = refl
key_leb-position Kind.kind_nic Kind.kind_nic i j = refl

in_order-total : (a b : ProbeDevice) → in_order a b ≡ false → in_order b a ≡ true
unfolding in_order
in_order-total a b h = ground arith

device_leb-in_order : (a b : ProbeDevice) → device_leb a b ≡ in_order a b
unfolding device_leb in_order
device_leb-in_order a b = key_leb-position a.kind b.kind a.index b.index

after_head-insert_device :
    (e d : ProbeDevice) (rest : List ProbeDevice)
    → after_head e rest ≡ true
    → in_order e d ≡ true
    → after_head e (insert_device d rest) ≡ true
unfolding insert_device
after_head-insert_device e d [] h k = k
after_head-insert_device e d (f ∷ rest) h k = ground (arith, device_leb-in_order d f)

is_sorted-insert_device :
    (d : ProbeDevice) (rest : List ProbeDevice)
    → is_sorted rest ≡ true
    → is_sorted (insert_device d rest) ≡ true
unfolding insert_device
is_sorted-insert_device d [] h = refl
is_sorted-insert_device d (e ∷ rest) h = ground (
  arith,
  device_leb-in_order d e,
  in_order-total d e,
  is_sorted-insert_device d rest,
  after_head-insert_device e d rest,
)

is_sorted-sort_devices : (ds : List ProbeDevice) → is_sorted (sort_devices ds) ≡ true
unfolding sort_devices
is_sorted-sort_devices [] = refl
is_sorted-sort_devices (d ∷ rest) =
    is_sorted-insert_device d (sort_devices rest) (is_sorted-sort_devices rest)

-- The devices are in order, and no two have the same kind and index, so that there is one order.
pub record IsOrdered (devices : List ProbeDevice) : Type 0 where
  pub sorted : is_sorted devices ≡ true
  pub distinct : (k : Kind) (i : ℕ) → count (at_key k i) devices ≤ 1

abbrev IsFirstCpu : ProbeDevice → Type 0
IsFirstCpu d = d.kind ≡ Kind.kind_cpu

-- Four lists of different kinds, each with its keys once.
one_kind :
    (k : Kind) (i : ℕ) (cpu : ProbeDevice) {total a b x y z : ℕ}
    → total ≡ x + (y + (z + count (at_key k i) (cpu ∷ [])))
    → x ≤ a
    → y ≤ b
    → a ≤ (if same_kind Kind.kind_gpu k then 1 else 0)
    → b ≤ (if same_kind Kind.kind_npu k then 1 else 0)
    → z ≤ (if same_kind Kind.kind_nic k then 1 else 0)
    → IsFirstCpu cpu
    → total ≤ 1
one_kind Kind.kind_gpu i cpu sum da db ha hb hz c = ground (arith, c)
one_kind Kind.kind_npu i cpu sum da db ha hb hz c = ground (arith, c)
one_kind Kind.kind_cpu i cpu sum da db ha hb hz c = ground (arith, c)
one_kind Kind.kind_nic i cpu sum da db ha hb hz c = ground (arith, c)

joined-distinct :
    (gpus npus nics : List ProbeDevice) (cpu : ProbeDevice)
    → HasKeys Kind.kind_gpu gpus
    → HasKeys Kind.kind_npu npus
    → HasKeys Kind.kind_nic nics
    → IsFirstCpu cpu
    → (k : Kind) (i : ℕ) → count (at_key k i) (sort_devices (join_devices gpus npus nics cpu)) ≤ 1
joined-distinct gpus npus nics cpu g u n c k i =
    let fabric = fabric_addresses nics [] in
    one_kind k i cpu (count-joined (at_key k i) gpus npus nics cpu)
      (count-drop_fabric_functions (at_key k i) gpus fabric)
      (count-drop_fabric_functions (at_key k i) npus fabric) (g k i) (u k i) (n k i) c

finished-IsOrdered :
    (nics gpus npus : Option (List ProbeDevice)) (cpu : Option ProbeDevice)
    (devices : List ProbeDevice)
    → IfSome (HasKeys Kind.kind_nic) nics
    → IfSome (HasKeys Kind.kind_gpu) gpus
    → IfSome (HasKeys Kind.kind_npu) npus
    → IfSome IsFirstCpu cpu
    → finish_walk nics gpus npus cpu ≡ some devices
    → IsOrdered devices
unfolding finish_walk
finished-IsOrdered none gpus npus cpu devices n g u c e = absurd (ground arith)
finished-IsOrdered (some nics) none npus cpu devices n g u c e = absurd (ground arith)
finished-IsOrdered (some nics) (some gpus) none cpu devices n g u c e = absurd (ground arith)
finished-IsOrdered (some nics) (some gpus) (some npus) none devices n g u c e =
    absurd (ground arith)
finished-IsOrdered (some nics) (some gpus) (some npus) (some cpu) devices n g u c e =
    subst IsOrdered (ground arith) (record {
      sorted = is_sorted-sort_devices (join_devices gpus npus nics cpu);
      distinct = joined-distinct gpus npus nics cpu g u n c;
    })

cpu_with-first :
    (fs : Sysfs) (proc_root : String) (ram : Option ℕ)
    → IfSome IsFirstCpu (cpu_with fs proc_root ram)
unfolding cpu_with
cpu_with-first fs proc_root none = tt
cpu_with-first fs proc_root (some ram) = refl

-- When Walk succeeds, its devices are sorted by kind, in the alphabetical order of the kinds' names,
-- and within a kind by index, and no two have the same kind and
-- index, so that the order does not depend on how they are sorted.
pub walk-IsOrdered :
    (fs : Sysfs) (sys_root proc_root : String) (devices : List ProbeDevice)
    → walk fs sys_root proc_root ≡ some devices
    → IsOrdered devices
unfolding walk cpu_device
walk-IsOrdered fs sys_root proc_root devices walked =
    finished-IsOrdered _ _ _ _ devices (walk_infiniband-HasKeys fs sys_root _)
      (walk_class-HasKeys fs Kind.kind_gpu (gpu-kind fs) (gpu-index fs) _ "card" _)
      (walk_class-HasKeys fs Kind.kind_npu (npu-kind fs) (npu-index fs) _ "accel" _)
      (cpu_with-first fs proc_root _) walked
