-- ===== src/Probe/Walk.antt =====
-- Walk of probe.go: the devices of all classes, without the fabric functions, in order.
use mathlib.Core.List.{◌++◌}
use llmfit_dra.Prelude.{
  String, ℕ, Option, none, some, List, [], ◌∷◌, Bool, true, ◌==◌, if◌then◌else◌, leb,
}
use llmfit_dra.Prelude.Maps.{GoMap, insert}
use llmfit_dra.Prelude.Text.{text_leb}
use llmfit_dra.Probe.{Kind, kind_text, ProbeDevice, drop_fabric_functions}
use llmfit_dra.Probe.Sysfs.{Sysfs, join_path}
use llmfit_dra.Probe.Devices.{walk_class, walk_infiniband, cpu_device}

-- `fabricPCI`
unfoldable pub fabric_addresses : List ProbeDevice → GoMap Bool → GoMap Bool
fabric_addresses [] fabric = fabric
fabric_addresses (n ∷ rest) fabric =
    fabric_addresses rest (if n.pci_addr == "" then fabric else insert n.pci_addr true fabric)

-- The order of `sort.Slice`: by kind, then by index.
unfoldable pub key_leb : Kind → ℕ → Kind → ℕ → Bool
unfolding kind_text
key_leb k i l j =
    if kind_text k == kind_text l then leb i j else text_leb (kind_text k) (kind_text l)

unfoldable pub device_leb : ProbeDevice → ProbeDevice → Bool
unfolding key_leb
device_leb a b = key_leb a.kind a.index b.kind b.index

unfoldable pub insert_device : ProbeDevice → List ProbeDevice → List ProbeDevice
unfolding device_leb
insert_device d [] = d ∷ []
insert_device d (e ∷ rest) =
    let later = insert_device d rest in if device_leb d e then d ∷ e ∷ rest else e ∷ later

unfoldable pub sort_devices : List ProbeDevice → List ProbeDevice
unfolding insert_device
sort_devices [] = []
sort_devices (d ∷ rest) = insert_device d (sort_devices rest)

-- What `Walk` makes of the four lists.
unfoldable pub join_devices :
    List ProbeDevice → List ProbeDevice → List ProbeDevice → ProbeDevice → List ProbeDevice
unfolding drop_fabric_functions fabric_addresses
join_devices gpus npus nics cpu =
    let fabric = fabric_addresses nics [] in
    drop_fabric_functions gpus fabric ++ drop_fabric_functions npus fabric ++ nics ++ (cpu ∷ [])

unfoldable pub finish_walk :
    Option (List ProbeDevice)
    → Option (List ProbeDevice)
    → Option (List ProbeDevice)
    → Option ProbeDevice
    → Option (List ProbeDevice)
unfolding sort_devices join_devices
finish_walk (some nics) (some gpus) (some npus) (some cpu) =
    some (sort_devices (join_devices gpus npus nics cpu))
finish_walk _ _ _ _ = none

-- `Walk`; `none` is its error.
unfoldable pub walk : Sysfs → String → String → Option (List ProbeDevice)
unfolding walk_infiniband walk_class cpu_device finish_walk
walk fs sys_root proc_root =
    let ib_dir = join_path sys_root "class/infiniband" in
    let drm_dir = join_path sys_root "class/drm" in
    let accel_dir = join_path sys_root "class/accel" in
    finish_walk (walk_infiniband fs sys_root (fs.read_dir ib_dir))
      (walk_class fs Kind.kind_gpu drm_dir "card" (fs.read_dir drm_dir))
      (walk_class fs Kind.kind_npu accel_dir "accel" (fs.read_dir accel_dir))
      (cpu_device fs proc_root)
