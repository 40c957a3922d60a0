-- ===== src/Tests/Probing.antt =====
-- A node with a converged card, which is an RDMA NIC with two class entries and a DRM entry, and a
-- GPU.
use llmfit_dra.Prelude.{
  String, ◌≡◌, refl, true, none, some, Option, List, [], ◌∷◌, ◌==◌, if◌then◌else◌,
}
use llmfit_dra.Prelude.Maps.{lookup, insert}
use llmfit_dra.Prelude.Text.{split_on}
use llmfit_dra.ModelClaim.Template.{trim_space, is_space}
use llmfit_dra.Probe.{kind_gpu, kind_nic, kind_cpu, ProbeDevice}
use llmfit_dra.Probe.Sysfs.{Sysfs, DirAnswer, entries, absent}
use llmfit_dra.Probe.Devices.{blank}
use llmfit_dra.Probe.Walk.{walk}
use llmfit_dra.Probe.Functions.{IsClassified, walk-IsClassified}
use llmfit_dra.Probe.Order.{IsOrdered, walk-IsOrdered}

abbrev listed : String → DirAnswer
listed path =
    if path == "/sys/class/infiniband"
    then entries ("mlx5_0" ∷ "mlx5_1" ∷ [])
    else if path == "/sys/class/drm"
    then entries ("card0" ∷ "card0-DP-1" ∷ "card1" ∷ [])
    else absent

abbrev resolved : String → Option String
resolved path =
    if path == "/sys/class/drm/card1/device"
    then some "/sys/devices/pci0000:00/0000:01:00.0"
    else some "/sys/devices/pci0000:40/0000:41:00.0"

abbrev tree : Sysfs
tree = record {
  read_dir = listed;
  read_file = λ path. if path == "/proc/meminfo" then some "MemTotal: 16 kB" else none;
  read_link = λ path. none;
  eval_symlinks = resolved;
  exists = λ path. true;
  parse_rate = λ word. none;
}

abbrev walked_devices : List ProbeDevice
walked_devices =
    record (blank kind_cpu) { system_ram_bytes = 16384 }
    ∷ record (blank kind_gpu) {
      index = 1;
      pci_addr = "0000:01:00.0";
      pcie_root = "pci0000:00";
      dev_node = "/dev/dri/card1";
    }
    ∷ record (blank kind_nic) { pci_addr = "0000:41:00.0"; pcie_root = "pci0000:40" }
    ∷ []

walks : walk tree "/sys" "/proc" ≡ some walked_devices
unfolding walk split_on trim_space is_space lookup insert
walks = refl

walk-IsClassified_example : IsClassified "0000:41:00.0" walked_devices
walk-IsClassified_example =
    walk-IsClassified tree "/sys" "/proc" walked_devices "0000:41:00.0" refl walks

walk-IsOrdered_example : IsOrdered walked_devices
walk-IsOrdered_example = walk-IsOrdered tree "/sys" "/proc" walked_devices walks
