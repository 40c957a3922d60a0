-- ===== src/Tests/Publishing.antt =====
-- A node with two AMD GPUs, an NVIDIA GPU and a NIC, and what it publishes.
use llmfit_dra.Prelude.{
  String, ℕ, ◌*◌, ◌≡◌, ◌⊎◌, refl, Bool, true, false, some, List, [], ◌∷◌, ltb, All, arith,
}
use llmfit_dra.Prelude.Maps.{GoMap, lookup, insert}
use llmfit_dra.Prelude.Int64.{pos, mul64, of_u64}
use llmfit_dra.Prelude.Text.{split_on, sort_strings}
use llmfit_dra.Resource.{ResourceSlice}
use llmfit_dra.ModelClaim.Template.{trim_space}
use llmfit_dra.Index.{lookup_entry}
use llmfit_dra.Llmfit.{FloatOps, Gpu, System, vendor_of}
use llmfit_dra.Probe.{Kind, kind_gpu, kind_nic, ProbeDevice, healthy}
use llmfit_dra.ModelClaim.Backend.{gpu_class}
use llmfit_dra.ModelClaim.Cel.{meaning, of_bool}
use llmfit_dra.ModelClaim.Cel.Fit.{fit_expr}
use llmfit_dra.ModelClaim.Satisfiable.Assess.{assess, fits}
use llmfit_dra.Publisher.Match.{vendor_name, probed_gpus, match_llmfit_gpu, count_at, is_gpu}
use llmfit_dra.Publisher.Build.{Sources, published, build_devices}
use llmfit_dra.Publisher.Schema.{well_typed, build_devices-typed}
use llmfit_dra.Publisher.Names.{
  find_published, first_named, entry_of, distinct_names, build_devices-find,
}
use llmfit_dra.Publisher.Fitness.{build_devices-agrees}
use llmfit_dra.Publisher.Memory.{known_memory, published-fits}
use llmfit_dra.Publisher.Classes.{InClasses, published-InClasses}
use llmfit_dra.Publisher.Pairing.{IsCovered, IsOnly, match_llmfit_gpu-paired}
use llmfit_dra.Publisher.Coexist.{parse_vendor_drivers, vendor_gpus_present}
use llmfit_dra.Tests.Fixtures.{bounds_of}

-- Floating-point numbers are natural numbers here.
abbrev pub whole : FloatOps ℕ
whole = record {
  positive = λ n. ltb 0 n;
  times_1024 = λ n. n * 1024;
  to_i64 = λ n. pos n;
  to_u64 = λ n. n;
}

abbrev pub card : Kind → String → String → String → ProbeDevice
card kind vendor driver addr = record {
  kind = kind;
  index = 0;
  pci_vendor = vendor;
  pci_device = "744c";
  pci_addr = addr;
  pcie_root = "pci0000:00";
  driver = driver;
  vram_bytes = 25753026560;
  dev_node = "/dev/dri/card0";
  render_node = "";
  cpu_model = "";
  system_ram_bytes = 0;
  ras_uncorrectable = 0;
  unique_id = "";
  ib_link_layer = "ethernet";
  ib_rate_gbps = 200;
  ib_port_active = true;
  net_dev = "";
}

abbrev pub node : List ProbeDevice
node =
    card kind_gpu "1002" "amdgpu" "0000:01:00.0"
    ∷ card kind_gpu "1002" "amdgpu" "0000:02:00.0"
    ∷ card kind_gpu "10de" "nvidia" "0000:03:00.0"
    ∷ card kind_nic "15b3" "mlx5_core" "0000:04:00.0"
    ∷ []

abbrev pub radeon : Gpu ℕ
radeon = record {
  name = "AMD Radeon RX 7900 XTX";
  vram_gb = some 24;
  backend = "ROCm";
  count = 2;
  unified_memory = false;
  memory_bandwidth_gbps = some 960;
}

abbrev pub report : System ℕ
report = record { total_ram_gb = 64; cpu_name = "Ryzen"; gpus = radeon ∷ [] }

abbrev pub sources : Sources ℕ
sources = record {
  idx = record { entries = [] };
  system_ram = 68719476736;
  sys = some report;
  opts = record { taints = true; vendor_managed_gpus = false };
}

build_devices-agrees_example :
    All
      (λ dev.
        meaning (fit_expr (bounds_of 5 80) gpu_class (pos 0)) dev
        ≡ of_bool (
            fits (
              assess
                (record { bounds = bounds_of 5 80; class = gpu_class; min_compute = pos 0 })
                dev)))
      (build_devices whole node sources)
build_devices-agrees_example =
    build_devices-agrees whole sources (bounds_of 5 80) gpu_class 0 node (omega arith) (omega arith)

published-InClasses_example :
    InClasses whole sources (probed_gpus node) (card kind_gpu "10de" "nvidia" "0000:03:00.0")
published-InClasses_example =
    published-InClasses whole sources (probed_gpus node)
      (card kind_gpu "10de" "nvidia" "0000:03:00.0")

admitted :
    fits (
      assess
        (record { bounds = bounds_of 5 80; class = gpu_class; min_compute = pos 0 })
        (published whole sources (probed_gpus node) (card kind_gpu "1002" "amdgpu" "0000:01:00.0")))
    ≡ true
unfolding fits assess published vendor_of probed_gpus lookup insert vendor_name mul64 of_u64
    lookup_entry healthy
admitted = refl

published-fits_example :
    ((healthy (card kind_gpu "1002" "amdgpu" "0000:01:00.0")).0 ≡ true)
    × (ltb 0 (
          known_memory whole sources
            (probed_gpus node)
            kind_gpu
            (card kind_gpu "1002" "amdgpu" "0000:01:00.0"))
        ≡ true)
    × (lookup "memory"
          (published whole sources
            (probed_gpus node)
            (card kind_gpu "1002" "amdgpu" "0000:01:00.0")).capacity
        ≡ some (
            of_u64 (
              known_memory whole sources
                (probed_gpus node)
                kind_gpu
                (card kind_gpu "1002" "amdgpu" "0000:01:00.0"))))
published-fits_example =
    published-fits whole sources (probed_gpus node)
      (record { bounds = bounds_of 5 80; class = gpu_class; min_compute = pos 0 })
      (card kind_gpu "1002" "amdgpu" "0000:01:00.0") admitted

build_devices-find_example :
    (distinct_names (build_devices whole node sources) ≡ true)
    × ((name : String)
        → find_published name (build_devices whole node sources)
          ≡ entry_of whole sources (probed_gpus node) (first_named name node))
build_devices-find_example = build_devices-find whole sources node

build_devices-typed_example :
    All (λ dev. well_typed dev.attributes ≡ true) (build_devices whole node sources)
build_devices-typed_example = build_devices-typed whole sources node

paired :
    match_llmfit_gpu
      (some report)
      (card kind_gpu "1002" "amdgpu" "0000:01:00.0")
      "amd"
      (count_at "amd" (probed_gpus node).by_vendor)
      (probed_gpus node).total
    ≡ some radeon
unfolding match_llmfit_gpu probed_gpus vendor_of lookup insert vendor_name
paired = refl

match_llmfit_gpu-paired_example :
    (is_gpu kind_gpu ≡ true)
    × (IsCovered "amd" (radeon ∷ []) node radeon ⊎ IsOnly (radeon ∷ []) node radeon)
match_llmfit_gpu-paired_example =
    match_llmfit_gpu-paired report node (card kind_gpu "1002" "amdgpu" "0000:01:00.0") "amd" radeon
      paired

abbrev pub nvidia_known : GoMap Bool
nvidia_known = ("gpu.intel.com", true) ∷ []

abbrev pub node_slices : List ResourceSlice
node_slices =
    record {
      driver = "gpu.nvidia.com";
      pool_name = "node-a";
      pool_generation = pos 1;
      node_name = some "node-a";
      devices = [];
    }
    ∷ record {
      driver = "nic.example.com";
      pool_name = "node-a";
      pool_generation = pos 1;
      node_name = some "node-a";
      devices = [];
    }
    ∷ []

flag_read :
    parse_vendor_drivers " gpu.nvidia.com,,gpu.intel.com"
    ≡ ("gpu.nvidia.com", true) ∷ ("gpu.intel.com", true) ∷ []
unfolding parse_vendor_drivers split_on insert trim_space
flag_read = refl

survey_read :
    vendor_gpus_present (("gpu.nvidia.com", true) ∷ nvidia_known) (some node_slices)
    ≡ some (true, "nic.example.com" ∷ [])
unfolding vendor_gpus_present lookup insert sort_strings
survey_read = refl
