-- ===== src/Publisher/Pairing.antt =====
-- matchLLMFitGPU of publisher.go: when a probed GPU takes the numbers of an entry of llmfit's report.
use llmfit_dra.Prelude.{
  String, ℕ, ◌+◌, ◌≤◌, ◌≡◌, ◌⊎◌, inl, inr, none, some, List, [], ◌∷◌, Bool, true, false, ◌&&◌, ◌==◌,
  if◌then◌else◌, arith, eq_iff, refl, length, select,
}
use llmfit_dra.Prelude.Maps.{lookup, lookup-insert}
use llmfit_dra.Llmfit.{Gpu, System, vendor_of}
use llmfit_dra.Probe.{ProbeDevice}
use llmfit_dra.Publisher.Match.{
  GpuCounts, count_at, count_gpu, count_gpus, probed_gpus, vendor_name, is_gpu, Found, nothing,
  ambiguous, one, find_vendor, covered, only_gpu, settle, match_llmfit_gpu,
}

abbrev pub gpu_of : String → ProbeDevice → Bool
gpu_of vendor d = is_gpu d.kind && vendor_name d.pci_vendor == vendor

abbrev pub is_gpu_device : ProbeDevice → Bool
is_gpu_device d = is_gpu d.kind

abbrev count_if : Bool → String → GpuCounts → GpuCounts
count_if gpu v c = if gpu then count_gpu v c else c

count_if-vendor :
    (gpu : Bool) (v vendor : String) (c : GpuCounts)
    → count_at vendor (count_if gpu v c).by_vendor ≡ (
        if gpu && v == vendor then count_at vendor c.by_vendor + 1 else count_at vendor c.by_vendor)
count_if-vendor false v vendor c = ground arith
count_if-vendor true v vendor c =
    ground (arith, lookup-insert v vendor (count_at v c.by_vendor + 1) c.by_vendor, eq_iff v vendor)

count_gpus-vendor :
    (vendor : String) (devices : List ProbeDevice) (c : GpuCounts)
    → count_at vendor (count_gpus devices c).by_vendor
      ≡ count_at vendor c.by_vendor + length (select (gpu_of vendor) devices)
unfolding count_gpus
count_gpus-vendor vendor [] c = ground arith
count_gpus-vendor vendor (d ∷ rest) c = ground (
  arith,
  count_gpus-vendor vendor rest (count_if (is_gpu d.kind) (vendor_name d.pci_vendor) c),
  count_if-vendor (is_gpu d.kind) (vendor_name d.pci_vendor) vendor c,
)

count_gpus-total :
    (devices : List ProbeDevice) (c : GpuCounts)
    → (count_gpus devices c).total ≡ c.total + length (select is_gpu_device devices)
unfolding count_gpus
count_gpus-total [] c = ground arith
count_gpus-total (d ∷ rest) c =
    ground (arith, count_gpus-total rest (count_if (is_gpu d.kind) (vendor_name d.pci_vendor) c))

probed_gpus-vendor :
    (vendor : String) (devices : List ProbeDevice)
    → count_at vendor (probed_gpus devices).by_vendor ≡ length (select (gpu_of vendor) devices)
unfolding probed_gpus lookup
probed_gpus-vendor vendor devices =
    omega (arith, count_gpus-vendor vendor devices (record { total = 0; by_vendor = [] }))

probed_gpus-total :
    (devices : List ProbeDevice)
    → (probed_gpus devices).total ≡ length (select is_gpu_device devices)
unfolding probed_gpus
probed_gpus-total devices =
    omega (arith, count_gpus-total devices (record { total = 0; by_vendor = [] }))

module _ {F : Type 0} where
  abbrev pub of_vendor : String → Gpu F → Bool
  of_vendor vendor g = vendor_of g == vendor

  abbrev classify : List (Gpu F) → Found F
  classify [] = nothing
  classify (g ∷ []) = one g
  classify (g ∷ h ∷ rest) = ambiguous

  find_vendor-classify :
      (vendor : String) (gpus : List (Gpu F)) (m : Gpu F)
      → find_vendor vendor gpus (some m) ≡ classify (m ∷ select (of_vendor vendor) gpus)
  unfolding find_vendor
  find_vendor-classify vendor [] m = refl
  find_vendor-classify vendor (g ∷ rest) m = ground (arith, find_vendor-classify vendor rest m)

  find_vendor-select :
      (vendor : String) (gpus : List (Gpu F))
      → find_vendor vendor gpus none ≡ classify (select (of_vendor vendor) gpus)
  unfolding find_vendor
  find_vendor-select vendor [] = refl
  find_vendor-select vendor (g ∷ rest) =
      ground (arith, find_vendor-select vendor rest, find_vendor-classify vendor rest g)

  -- The entry is the only one of its vendor, and its count covers the probed GPUs of that vendor.
  pub record IsCovered (vendor : String) (gpus : List (Gpu F)) (devices : List ProbeDevice)
      (g : Gpu F) : Type 0 where
    pub unique : select (of_vendor vendor) gpus ≡ g ∷ []
    pub enough : length (select (gpu_of vendor) devices) ≤ covered g

  -- The entry and the probed GPU are each the only one, and the entry's name tells no vendor.
  pub record IsOnly (gpus : List (Gpu F)) (devices : List ProbeDevice) (g : Gpu F) : Type 0 where
    pub unique : gpus ≡ g ∷ []
    pub unclassified : vendor_of g ≡ ""
    pub alone : length (select is_gpu_device devices) ≡ 1

  only_gpu-IsOnly :
      (gpus : List (Gpu F)) (total : ℕ) (g : Gpu F)
      → only_gpu gpus total ≡ some g
      → gpus ≡ g ∷ [] × vendor_of g ≡ "" × total ≡ 1
  unfolding only_gpu
  only_gpu-IsOnly [] total g h = ground arith
  only_gpu-IsOnly (k ∷ []) total g h = ground (arith, eq_iff (vendor_of k) "")
  only_gpu-IsOnly (k ∷ l ∷ rest) total g h = ground arith

  settle-cases :
      (selected gpus : List (Gpu F)) (same total : ℕ) (g : Gpu F)
      → settle gpus same total (classify selected) ≡ some g
      → (selected ≡ g ∷ [] × same ≤ covered g) ⊎ (gpus ≡ g ∷ [] × vendor_of g ≡ "" × total ≡ 1)
  unfolding settle
  settle-cases [] gpus same total g h = inr (only_gpu-IsOnly gpus total g h)
  settle-cases (k ∷ []) gpus same total g h = inl (ground arith)
  settle-cases (k ∷ l ∷ rest) gpus same total g h = ground arith

  match-settle :
      (sys : System F) (d : ProbeDevice) (vendor : String) (same total : ℕ) (g : Gpu F)
      → match_llmfit_gpu (some sys) d vendor same total ≡ some g
      → is_gpu d.kind ≡ true
        × settle sys.gpus same total (classify (select (of_vendor vendor) sys.gpus)) ≡ some g
  unfolding match_llmfit_gpu
  match-settle sys d vendor same total g h = ground (arith, find_vendor-select vendor sys.gpus)

  -- A GPU takes the numbers of an entry only in two cases: the entry is the only one of its vendor
  -- and its count covers every probed GPU of that vendor, or there is one entry, which tells no
  -- vendor, and one probed GPU.
  pub match_llmfit_gpu-paired :
      (sys : System F) (devices : List ProbeDevice) (d : ProbeDevice) (vendor : String) (g : Gpu F)
      → match_llmfit_gpu
          (some sys)
          d
          vendor
          (count_at vendor (probed_gpus devices).by_vendor)
          (probed_gpus devices).total
        ≡ some g
      → is_gpu d.kind ≡ true × (IsCovered vendor sys.gpus devices g ⊎ IsOnly sys.gpus devices g)
  match_llmfit_gpu-paired sys devices d vendor g h =
      let (gpu, settled) = match-settle sys d vendor _ _ g h in
      (
        gpu,
        elim (settle-cases (select (of_vendor vendor) sys.gpus) sys.gpus _ _ g settled) [
          | inl (unique, enough) ↦ inl (record {
            unique = unique;
            enough = ground (arith, probed_gpus-vendor vendor devices, enough);
          })
          | inr (unique, unclassified, alone) ↦ inr (record {
            unique = unique;
            unclassified = unclassified;
            alone = ground (arith, probed_gpus-total devices, alone);
          })
        ],
      )
