-- ===== src/Probe.antt =====
-- pkg/probe: the record of a probed device, its name and its health. The walk of sysfs that fills
-- the record is in the child modules.
pub mod Parse
pub mod Sysfs
pub mod Devices
pub mod Walk
pub mod Fabric
pub mod Functions
pub mod Keys
pub mod Order
use Prim.Native.Char.{code}
use Prim.Native.String.{◌++◌}
use llmfit_dra.Prelude.{
  String, ℕ, List, [], ◌∷◌, Bool, true, false, not, ◌&&◌, ◌||◌, ◌==◌, if◌then◌else◌, ltb, eqb,
}
use llmfit_dra.Prelude.Maps.{GoMap, has_key}
use llmfit_dra.Prelude.Text.{decimal}

pub data Kind : Type 0 where
  kind_gpu kind_npu kind_cpu kind_nic : Kind

unfoldable pub kind_text : Kind → String
kind_text kind_gpu = "gpu"
kind_text kind_npu = "npu"
kind_text kind_cpu = "cpu"
kind_text kind_nic = "nic"

-- The fields that the rest of the program reads by name.
pub record ProbeDevice : Type 0 where
  pub kind : Kind
  pub index : ℕ
  pub pci_vendor : String
  pub pci_device : String
  pub pci_addr : String
  pub pcie_root : String
  pub driver : String
  pub vram_bytes : ℕ
  pub dev_node : String
  pub render_node : String
  pub cpu_model : String
  pub system_ram_bytes : ℕ
  pub ras_uncorrectable : ℕ
  pub unique_id : String
  pub ib_link_layer : String
  pub ib_rate_gbps : ℕ
  pub ib_port_active : Bool
  pub net_dev : String

-- `Healthy`, with the reason.
unfoldable pub healthy : ProbeDevice → Bool × String
healthy d = elim d.kind [
  | kind_cpu ↦ (true, "")
  | kind_nic ↦
      if d.driver == ""
      then (false, "driverUnbound")
      else if ltb 0 d.ras_uncorrectable
      then (false, "uncorrectableEcc")
      else if not d.ib_port_active
      then (false, "portDown")
      else if d.dev_node == ""
      then (false, "noUverbsNode")
      else (true, "")
  | _ ↦
      if d.driver == ""
      then (false, "driverUnbound")
      else if ltb 0 d.ras_uncorrectable
      then (false, "uncorrectableEcc")
      else (true, "")
]

-- The replacer of ":" and "." by "-".
unfoldable pub dashes : String → String
dashes String.[] = ""
dashes (String.◌∷◌ c s) =
    let rest = dashes s in
    if eqb (code c) b':' || eqb (code c) b'.' then "-" ++ rest else String.◌∷◌ c rest

-- `Name`
unfoldable pub device_name : ProbeDevice → String
unfolding kind_text dashes
device_name d =
    if d.pci_addr == ""
    then kind_text d.kind ++ decimal d.index
    else kind_text d.kind ++ "-" ++ dashes d.pci_addr

-- `dropFabricFunctions`
unfoldable pub drop_fabric_functions : List ProbeDevice → GoMap Bool → List ProbeDevice
drop_fabric_functions [] fabric = []
drop_fabric_functions (d ∷ rest) fabric =
    let kept = drop_fabric_functions rest fabric in
    if not (d.pci_addr == "") && has_key d.pci_addr fabric then kept else d ∷ kept
