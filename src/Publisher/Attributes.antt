-- ===== src/Publisher/Attributes.antt =====
-- The branches of BuildDevices: the attributes of a NIC, a CPU and an accelerator, and the memory.
use Prim.Native.String.{◌++◌, len, slice}
use llmfit_dra.Prelude.{
  String, ℕ, Option, none, some, Bool, true, false, ◌==◌, if◌then◌else◌, ltb, leb,
}
use llmfit_dra.Prelude.Maps.{GoMap, insert}
use llmfit_dra.Prelude.Int64.{ℤ, pos, ltb64}
use llmfit_dra.Resource.{DeviceAttribute, string_attr, bool_attr, int_attr}
use llmfit_dra.Index.{Entry}
use llmfit_dra.Llmfit.{FloatOps, Gpu, System}
use llmfit_dra.Probe.{ProbeDevice}
use llmfit_dra.Publisher.Match.{vendor_name}

-- `truncate`: the longest text of whole characters within n bytes.
unfoldable pub truncate : String → ℕ → String
truncate s n = if leb (len s) n then s else slice s 0 n

abbrev pub Attributes : Type 0
Attributes = GoMap DeviceAttribute

-- `if v != "" { attrs[key] = … }`
unfoldable pub set_text : String → String → Attributes → Attributes
set_text key v attrs = if v == "" then attrs else insert key (string_attr v) attrs

-- `if model != "" { attrs["model"] = … }`
unfoldable pub set_model : String → Attributes → Attributes
set_model model attrs =
    if model == "" then attrs else insert "model" (string_attr (truncate model 64)) attrs

-- `if n > 0 { attrs[key] = … }`
unfoldable pub set_positive : String → ℤ → Attributes → Attributes
set_positive key n attrs = if ltb64 (pos 0) n then insert key (int_attr n) attrs else attrs

-- Where the device is: the driver, the address and the PCIe root.
unfoldable pub set_place : ProbeDevice → Attributes → Attributes
unfolding set_text
set_place d attrs =
    let at = set_text "pciAddress" d.pci_addr (set_text "driver" d.driver attrs) in
    set_text "resource.kubernetes.io/pcieRoot" d.pcie_root (set_text "pcieRoot" d.pcie_root at)

-- `case probe.KindNIC`
unfoldable pub nic_attributes : ProbeDevice → Attributes → Attributes
unfolding set_place set_text set_positive
nic_attributes d attrs =
    let named =
      insert "source" (string_attr "probe")
        (insert "vendor" (string_attr (vendor_name d.pci_vendor)) attrs) in
    let linked = set_text "linkLayer" d.ib_link_layer (set_place d named) in
    set_text "netdev" d.net_dev (set_positive "rateGbps" (pos d.ib_rate_gbps) linked)

-- What a branch leaves: the attributes, `unified` and `memBytes`.
pub record Capability : Type 0 where
  pub attributes : Attributes
  pub unified : Option Bool
  pub mem_bytes : ℕ

unfoldable pub set_index_bandwidth : Option Entry → Attributes → Attributes
unfolding set_positive
set_index_bandwidth none attrs = attrs
set_index_bandwidth (some e) attrs = set_positive "memoryBandwidthGBs" e.memory_bandwidth_gbs attrs

unfoldable pub set_index_compute : Option Entry → Attributes → Attributes
unfolding set_positive
set_index_compute none attrs = attrs
set_index_compute (some e) attrs = set_positive "computeTFLOPS" e.compute_tflops attrs

-- `case found` and `default` of the capability switch.
unfoldable pub index_capability : Option Entry → ProbeDevice → Attributes → Capability
unfolding set_index_bandwidth set_index_compute
index_capability (some e) d attrs =
    let named =
      insert "model" (string_attr (truncate e.model 64))
        (insert "source" (string_attr "index") attrs) in
    record {
      attributes = set_index_compute (some e) (set_index_bandwidth (some e) named);
      unified = some e.unified_memory;
      mem_bytes = 0;
    }
index_capability none d attrs =
    let model = truncate ("pci-" ++ d.pci_vendor ++ "-" ++ d.pci_device) 64 in
    record {
      attributes = insert "model" (string_attr model) (insert "source" (string_attr "probe") attrs);
      unified = if ltb 0 d.vram_bytes then some false else none;
      mem_bytes = 0;
    }

module _ {F : Type 0} (ops : FloatOps F) where
  -- `uint64(x * 1024 * 1024 * 1024)`
  unfoldable pub gib_bytes : F → ℕ
  gib_bytes x = ops.to_u64 (ops.times_1024 (ops.times_1024 (ops.times_1024 x)))

  unfoldable pub set_bandwidth : Option F → Option Entry → Attributes → Attributes
  unfolding set_index_bandwidth
  set_bandwidth none entry attrs = set_index_bandwidth entry attrs
  set_bandwidth (some bw) entry attrs =
      if ops.positive bw
      then insert "memoryBandwidthGBs" (int_attr (ops.to_i64 bw)) attrs
      else set_index_bandwidth entry attrs

  unfoldable pub vram_budget : Option F → ℕ
  unfolding gib_bytes
  vram_budget none = 0
  vram_budget (some x) = if ops.positive x then gib_bytes x else 0

  -- The capability switch.
  unfoldable pub capability : Option (Gpu F) → Option Entry → ProbeDevice → Attributes → Capability
  unfolding set_bandwidth set_index_compute vram_budget index_capability
  capability none entry d attrs = index_capability entry d attrs
  capability (some lf) entry d attrs =
      let named = set_text "backend" lf.backend (
        insert "model" (string_attr (truncate lf.name 64))
          (insert "source" (string_attr "llmfit") attrs)) in
      record {
        attributes = set_index_compute entry (set_bandwidth lf.memory_bandwidth_gbps entry named);
        unified = some lf.unified_memory;
        mem_bytes = vram_budget lf.vram_gb;
      }

  -- `case probe.KindCPU`
  unfoldable pub cpu_capability : Option (System F) → ProbeDevice → Attributes → Capability
  unfolding set_model gib_bytes
  cpu_capability none d attrs =
      let base =
        insert "unifiedMemory" (bool_attr true) (insert "vendor" (string_attr "cpu") attrs) in
      record {
        attributes = set_model d.cpu_model (insert "source" (string_attr "probe") base);
        unified = none;
        mem_bytes = d.system_ram_bytes;
      }
  cpu_capability (some sys) d attrs =
      let base =
        insert "unifiedMemory" (bool_attr true) (insert "vendor" (string_attr "cpu") attrs) in
      let model = if sys.cpu_name == "" then d.cpu_model else sys.cpu_name in
      record {
        attributes = set_model model (insert "source" (string_attr "llmfit") base);
        unified = none;
        mem_bytes =
            if ops.positive sys.total_ram_gb
            then gib_bytes sys.total_ram_gb
            else d.system_ram_bytes;
      }
