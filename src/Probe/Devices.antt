-- ===== src/Probe/Devices.antt =====
-- probe.go: the GPUs, the NPUs, the RDMA NICs and the CPU, each from its class directory.
use Prim.Native.String.{◌++◌}
use llmfit_dra.Prelude.{
  String, ℕ, ◌+◌, Option, none, some, List, [], ◌∷◌, Bool, true, false, not, ◌&&◌, ◌||◌, ◌==◌,
  if◌then◌else◌,
}
use llmfit_dra.Prelude.Maps.{GoMap, insert, has_key}
use llmfit_dra.Prelude.Text.{cut_text, codes, contains_codes}
use llmfit_dra.Probe.{Kind, ProbeDevice}
use llmfit_dra.Probe.Parse.{is_number}
use llmfit_dra.Probe.Sysfs.{
  Sysfs, DirAnswer, entries, absent, unreadable, join_path, read_trimmed, read_hex_id,
  read_link_base, read_uint, pci_address, vram_bytes, render_node, first_dir_entry, uverbs_node,
  normalize_link_layer, parse_rate_gbps, mem_total_bytes, cpu_model,
}

-- The zero value of a `Device` of a kind.
abbrev pub blank : Kind → ProbeDevice
blank kind = record {
  kind = kind;
  index = 0;
  pci_vendor = "";
  pci_device = "";
  pci_addr = "";
  pcie_root = "";
  driver = "";
  vram_bytes = 0;
  dev_node = "";
  render_node = "";
  cpu_model = "";
  system_ram_bytes = 0;
  ras_uncorrectable = 0;
  unique_id = "";
  ib_link_layer = "";
  ib_rate_gbps = 0;
  ib_port_active = false;
  net_dev = "";
}

-- An entry such as card0: the prefix and a number.
unfoldable pub is_numbered : String → String → Bool
unfolding cut_text is_number
is_numbered prefix name = elim (cut_text prefix name) [
  | none ↦ false
  | some suffix ↦ is_number suffix
]

module _ (fs : Sysfs) where
  -- The nodes of a class device.
  unfoldable pub with_nodes : Kind → String → String → ProbeDevice → ProbeDevice
  unfolding render_node
  with_nodes Kind.kind_gpu name dev_dir d = record d {
    dev_node = "/dev/dri/" ++ name;
    render_node = render_node fs dev_dir;
  }
  with_nodes Kind.kind_npu name dev_dir d = record d { dev_node = "/dev/accel/" ++ name }
  with_nodes _ name dev_dir d = d

  unfoldable pub class_device : Kind → String → String → ℕ → ProbeDevice
  unfolding with_nodes read_hex_id read_link_base vram_bytes read_trimmed read_uint pci_address
  class_device kind class_dir name index =
      let dev_dir = join_path (join_path class_dir name) "device" in
      let (addr, root) = pci_address fs dev_dir in
      with_nodes kind name dev_dir (record (blank kind) {
        index = index;
        pci_vendor = read_hex_id fs (join_path dev_dir "vendor");
        pci_device = read_hex_id fs (join_path dev_dir "device");
        driver = read_link_base fs (join_path dev_dir "driver");
        vram_bytes = vram_bytes fs class_dir name;
        unique_id = read_trimmed fs (join_path dev_dir "unique_id");
        ras_uncorrectable = read_uint fs (join_path dev_dir "ras/ue_count");
        pci_addr = addr;
        pcie_root = root;
      })

  -- The loop of `walkClass`.
  unfoldable pub class_devices : Kind → String → String → List String → ℕ → List ProbeDevice
  unfolding is_numbered class_device
  class_devices kind class_dir prefix [] index = []
  class_devices kind class_dir prefix (name ∷ rest) index =
      let numbered = is_numbered prefix name in
      let later =
        class_devices kind class_dir prefix rest (if numbered then index + 1 else index) in
      if numbered then class_device kind class_dir name index ∷ later else later

  -- `walkClass`; `none` is its error.
  unfoldable pub walk_class : Kind → String → String → DirAnswer → Option (List ProbeDevice)
  unfolding class_devices
  walk_class kind class_dir prefix absent = some []
  walk_class kind class_dir prefix unreadable = none
  walk_class kind class_dir prefix (entries names) =
      some (class_devices kind class_dir prefix names 0)

  unfoldable pub nic_device : String → String → String → ℕ → ProbeDevice
  unfolding read_hex_id read_link_base normalize_link_layer parse_rate_gbps first_dir_entry
      uverbs_node read_trimmed pci_address contains_codes codes
  nic_device sys_root class_dir name index =
      let dev_dir = join_path (join_path class_dir name) "device" in
      let port1 = join_path (join_path class_dir name) "ports/1" in
      let (addr, root) = pci_address fs dev_dir in
      record (blank Kind.kind_nic) {
        index = index;
        pci_vendor = read_hex_id fs (join_path dev_dir "vendor");
        pci_device = read_hex_id fs (join_path dev_dir "device");
        driver = read_link_base fs (join_path dev_dir "driver");
        ib_link_layer = normalize_link_layer (read_trimmed fs (join_path port1 "link_layer"));
        ib_rate_gbps = parse_rate_gbps fs (read_trimmed fs (join_path port1 "rate"));
        ib_port_active =
            contains_codes (codes (read_trimmed fs (join_path port1 "state"))) (codes "ACTIVE");
        net_dev = first_dir_entry fs (join_path dev_dir "net");
        dev_node = uverbs_node fs sys_root name;
        pci_addr = addr;
        pcie_root = root;
      }

  -- The key that tells PCI functions apart: the address, or else the resolved directory.
  unfoldable pub function_key : String → String → String → String
  function_key class_dir name addr =
      if addr == ""
      then (elim (fs.eval_symlinks (join_path (join_path class_dir name) "device")) [
        | none ↦ ""
        | some real ↦ real
      ])
      else addr

  -- Whether an entry is passed over: no device, or a function that was seen.
  unfoldable pub passed_over : String → String → String → GoMap Bool → Bool
  passed_over class_dir name key seen =
      not (fs.exists (join_path (join_path class_dir name) "device"))
      || not (key == "") && has_key key seen

  -- The loop of `walkInfiniband`.
  unfoldable pub nic_devices : String → String → List String → ℕ → GoMap Bool → List ProbeDevice
  unfolding nic_device function_key passed_over
  nic_devices sys_root class_dir [] index seen = []
  nic_devices sys_root class_dir (name ∷ rest) index seen =
      let d = nic_device sys_root class_dir name index in
      let key = function_key class_dir name d.pci_addr in
      let skip = passed_over class_dir name key seen in
      let later =
        nic_devices sys_root class_dir rest (if skip then index else index + 1)
          (if skip || key == "" then seen else insert key true seen) in
      if skip then later else d ∷ later

  -- `walkInfiniband`
  unfoldable pub walk_infiniband : String → DirAnswer → Option (List ProbeDevice)
  unfolding nic_devices
  walk_infiniband sys_root absent = some []
  walk_infiniband sys_root unreadable = none
  walk_infiniband sys_root (entries names) =
      some (nic_devices sys_root (join_path sys_root "class/infiniband") names 0 [])

  unfoldable pub cpu_with : String → Option ℕ → Option ProbeDevice
  unfolding cpu_model
  cpu_with proc_root none = none
  cpu_with proc_root (some ram) = some (record (blank Kind.kind_cpu) {
    cpu_model = cpu_model fs (join_path proc_root "cpuinfo");
    system_ram_bytes = ram;
  })

  -- `cpuDevice`
  unfoldable pub cpu_device : String → Option ProbeDevice
  unfolding cpu_with mem_total_bytes
  cpu_device proc_root = cpu_with proc_root (mem_total_bytes fs (join_path proc_root "meminfo"))
