-- ===== src/Publisher/Build.antt =====
-- BuildDevices of publisher.go.
use llmfit_dra.Prelude.{
  String, ℕ, Option, none, some, List, [], ◌∷◌, Bool, true, false, not, ◌&&◌, ◌||◌, ◌==◌,
  if◌then◌else◌, ltb, eqb,
}
use llmfit_dra.Prelude.Maps.{GoMap, insert, has_key}
use llmfit_dra.Prelude.Int64.{of_u64}
use llmfit_dra.Resource.{Device, string_attr, bool_attr}
use llmfit_dra.Index.{Index, Entry, lookup_entry}
use llmfit_dra.Llmfit.{FloatOps, System}
use llmfit_dra.Probe.{Kind, kind_text, ProbeDevice, healthy, device_name}
use llmfit_dra.Publisher.Match.{
  GpuCounts, probed_gpus, count_at, vendor_name, is_gpu, match_llmfit_gpu,
}
use llmfit_dra.Publisher.Attributes.{
  Attributes, Capability, set_place, set_text, nic_attributes, cpu_capability, capability,
}

-- `preparableGPUDrivers`
unfoldable pub preparable : String → Bool
preparable driver = driver == "amdgpu" || driver == "xe" || driver == "i915"

pub record Options : Type 0 where
  pub taints : Bool
  pub vendor_managed_gpus : Bool

-- The arguments of `BuildDevices` but the devices.
pub record Sources (F : Type 0) : Type 0 where
  pub idx : Index
  pub system_ram : ℕ
  pub sys : Option (System F)
  pub opts : Options

-- The attributes that every device has.
unfoldable pub base_attributes : ProbeDevice → Attributes
unfolding set_text
base_attributes d =
    let (ok, reason) = healthy d in
    set_text "healthReason" reason
      (insert "healthy" (bool_attr ok) (insert "kind" (string_attr (kind_text d.kind)) []))

abbrev max_bytes : ℕ → ℕ → ℕ
max_bytes a b = if ltb a b then b else a

-- The capacity of a device whose capability has none.
unfoldable pub pool_bytes : Option Bool → ℕ → ℕ → ℕ
pool_bytes (some true) vram ram = max_bytes vram ram
pool_bytes _ vram ram = vram

abbrev pub set_unified : Option Bool → Attributes → Attributes
set_unified none attrs = attrs
set_unified (some u) attrs = insert "unifiedMemory" (bool_attr u) attrs

-- Whether the default classes must not allocate the device.
abbrev pub fitness_only : Options → ProbeDevice → Bool
fitness_only opts d = is_gpu d.kind && (opts.vendor_managed_gpus || not (preparable d.driver))

abbrev pub set_vendor_managed : Bool → Attributes → Attributes
set_vendor_managed managed attrs =
    if managed then insert "vendorManaged" (bool_attr true) attrs else attrs

abbrev pub found : Option Entry → Bool
found none = false
found (some e) = true

module _ {F : Type 0} (ops : FloatOps F) where
  -- The `default` branch: a GPU or an NPU.
  unfoldable pub accelerator_capability :
      Sources F → GpuCounts → ProbeDevice → Attributes → Capability
  unfolding set_place capability match_llmfit_gpu pool_bytes preparable
  accelerator_capability src counts d attrs =
      let vendor = vendor_name d.pci_vendor in
      let lf = match_llmfit_gpu src.sys d vendor (count_at vendor counts.by_vendor) counts.total in
      let entry = lookup_entry src.idx d.pci_vendor d.pci_device in
      let placed = set_place d (insert "vendor" (string_attr vendor) attrs) in
      let cap = capability ops lf entry d (insert "indexed" (bool_attr (found entry)) placed) in
      record {
        attributes =
            set_vendor_managed (fitness_only src.opts d) (set_unified cap.unified cap.attributes);
        unified = cap.unified;
        mem_bytes =
            if eqb cap.mem_bytes 0
            then pool_bytes cap.unified d.vram_bytes src.system_ram
            else cap.mem_bytes;
      }

  -- The switch on the kind.
  unfoldable pub kind_capability :
      Kind → Sources F → GpuCounts → ProbeDevice → Attributes → Capability
  unfolding nic_attributes cpu_capability accelerator_capability
  kind_capability Kind.kind_nic src counts d attrs = record {
    attributes = nic_attributes d attrs;
    unified = none;
    mem_bytes = 0;
  }
  kind_capability Kind.kind_cpu src counts d attrs = cpu_capability ops src.sys d attrs
  kind_capability _ src counts d attrs = accelerator_capability src counts d attrs

  -- The entry of one probed device.
  unfoldable pub published : Sources F → GpuCounts → ProbeDevice → Device
  unfolding base_attributes kind_capability
  published src counts d =
      let (ok, reason) = healthy d in
      let cap = kind_capability d.kind src counts d (base_attributes d) in
      record {
        name = device_name d;
        attributes = cap.attributes;
        capacity = if ltb 0 cap.mem_bytes then ("memory", of_u64 cap.mem_bytes) ∷ [] else [];
        taints =
            if src.opts.taints && not ok
            then (record { key = "llmfit.ai/unhealthy"; value = reason; effect = "NoSchedule" })
              ∷ []
            else [];
      }

  -- The loop, with the names that were used.
  unfoldable pub publish_devices :
      Sources F → GpuCounts → List ProbeDevice → GoMap Bool → List Device
  unfolding published
  publish_devices src counts [] names = []
  publish_devices src counts (d ∷ rest) names =
      let seen = has_key (device_name d) names in
      let later =
        publish_devices src counts rest
          (if seen then names else insert (device_name d) true names) in
      if seen then later else published src counts d ∷ later

  unfoldable pub build_devices : List ProbeDevice → Sources F → List Device
  unfolding publish_devices probed_gpus
  build_devices devices src = publish_devices src (probed_gpus devices) devices []
