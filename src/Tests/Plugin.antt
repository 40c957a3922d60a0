-- ===== src/Tests/Plugin.antt =====
-- A claim for an AMD GPU, its file, and the end of it.
use llmfit_dra.Prelude.{String, ◌≡◌, refl, true, none, some, List, [], ◌∷◌}
use llmfit_dra.Prelude.Maps.{lookup}
use llmfit_dra.Resource.{ResourceClaim, AllocationResult}
use llmfit_dra.Probe.{ProbeDevice, Kind, kind_gpu, kind_nic, healthy}
use llmfit_dra.NodePlugin.Inventory.{Inventory, lookup_device}
use llmfit_dra.NodePlugin.Edits.{qualified_name}
use llmfit_dra.NodePlugin.Prepare.{
  prepared, prepare_failed, device_missing, SpecDir, prepare_claim, prepare_results, finish_prepare,
  after_write, write_spec, collect, item_of, PreparedDevice,
}
use llmfit_dra.NodePlugin.Prepare.Nodes.{own_results}
use llmfit_dra.NodePlugin.Prepare.Outcome.{Served, prepare_claim-Served}
use llmfit_dra.NodePlugin.Specs.{remove_spec, gc_orphaned_specs}
use llmfit_dra.NodePlugin.Specs.Orphans.{gc_keeps_live}

abbrev probed : Kind → String → String → ProbeDevice
probed kind driver dev_node = record {
  kind = kind;
  index = 0;
  pci_vendor = "1002";
  pci_device = "744c";
  pci_addr = "0000:01:00.0";
  pcie_root = "pci0000:00";
  driver = driver;
  vram_bytes = 25753026560;
  dev_node = dev_node;
  render_node = "";
  cpu_model = "";
  system_ram_bytes = 0;
  ras_uncorrectable = 0;
  unique_id = "";
  ib_link_layer = "ethernet";
  ib_rate_gbps = 200;
  ib_port_active = true;
  net_dev = "";
}

abbrev pub one_gpu : Inventory
one_gpu = ("gpu-0000-01-00-0", probed kind_gpu "amdgpu" "/dev/dri/card0") ∷ []

abbrev result_for : String → String → AllocationResult
result_for driver device = record {
  request = "model";
  driver = driver;
  pool = "node-a";
  device = device;
}

abbrev pub allocated : String → ResourceClaim
allocated device = record {
  namespace = "default";
  name = "pod-model";
  uid = "0ba5";
  allocation = some (result_for "other.example" "x" ∷ result_for "llmfit.ai" device ∷ []);
}

abbrev told_gpu : List PreparedDevice
told_gpu =
    record {
      requests = "model" ∷ [];
      pool_name = "node-a";
      device_name = "gpu-0000-01-00-0";
      cdi_device_ids = "llmfit.ai/device=0ba5-gpu-0000-01-00-0" ∷ [];
    }
    ∷ []

prepares : (prepare_claim one_gpu none [] (allocated "gpu-0000-01-00-0")).0 ≡ prepared told_gpu
unfolding prepare_claim prepare_results finish_prepare after_write write_spec collect item_of
    qualified_name lookup_device lookup
prepares = refl

prepare_claim-Served_example :
    Served one_gpu "0ba5"
      (own_results
        (result_for "other.example" "x" ∷ result_for "llmfit.ai" "gpu-0000-01-00-0" ∷ []))
      []
      told_gpu
      (prepare_claim one_gpu none [] (allocated "gpu-0000-01-00-0")).1
prepare_claim-Served_example =
    prepare_claim-Served one_gpu none [] (allocated "gpu-0000-01-00-0")
      (result_for "other.example" "x" ∷ result_for "llmfit.ai" "gpu-0000-01-00-0" ∷ []) told_gpu
      refl prepares

gone :
    (prepare_claim one_gpu none [] (allocated "gpu-0000-02-00-0")).0
    ≡ prepare_failed (device_missing "gpu-0000-02-00-0")
unfolding prepare_claim prepare_results finish_prepare collect lookup_device lookup
gone = refl

nic_healthy : (healthy (probed kind_nic "mlx5_core" "/dev/infiniband/uverbs0")).0 ≡ true
unfolding healthy
nic_healthy = refl

abbrev two_specs : SpecDir
two_specs = ("0ba5", []) ∷ ("dead", []) ∷ []

removed : (remove_spec (λ uid. none) "dead" two_specs).0 ≡ none
unfolding remove_spec lookup
removed = refl

gc_keeps_live_example :
    lookup "0ba5" (gc_orphaned_specs (λ uid. none) (some (allocated "x" ∷ [])) two_specs)
    ≡ lookup "0ba5" two_specs
gc_keeps_live_example = gc_keeps_live (λ uid. none) (allocated "x" ∷ []) two_specs "0ba5" refl
