-- ===== src/Publisher/Match.antt =====
-- matchLLMFitGPU of publisher.go: which GPU of llmfit's report a probed GPU is.
use Prim.Native.String.{◌++◌}
use llmfit_dra.Prelude.{
  String, ℕ, ◌+◌, Option, none, some, List, [], ◌∷◌, Bool, true, false, ◌&&◌, ◌||◌, ◌==◌,
  if◌then◌else◌, ltb, eqb,
}
use llmfit_dra.Prelude.Maps.{GoMap, lookup, insert}
use llmfit_dra.Llmfit.{Gpu, System, vendor_of}
use llmfit_dra.Probe.{Kind, ProbeDevice}

unfoldable pub vendor_name : String → String
vendor_name pci_vendor =
    if pci_vendor == "8086"
    then "intel"
    else if pci_vendor == "10de"
    then "nvidia"
    else if pci_vendor == "1002" || pci_vendor == "1022"
    then "amd"
    else if pci_vendor == "1da3"
    then "habana"
    else if pci_vendor == "15b3"
    then "mellanox"
    else if pci_vendor == "14e4"
    then "broadcom"
    else if pci_vendor == "1414"
    then "microsoft"
    else if pci_vendor == "15ad"
    then "vmware"
    else if pci_vendor == "1af4"
    then "virtio"
    else "pci-" ++ pci_vendor

abbrev pub is_gpu : Kind → Bool
is_gpu Kind.kind_gpu = true
is_gpu _ = false

-- `probedGPUs` and `probedGPUsByVendor`.
pub record GpuCounts : Type 0 where
  pub total : ℕ
  pub by_vendor : GoMap ℕ

abbrev pub count_at : String → GoMap ℕ → ℕ
count_at v m = elim (lookup v m) [ none ↦ 0 | some n ↦ n ]

abbrev pub count_gpu : String → GpuCounts → GpuCounts
count_gpu v c = record {
  total = c.total + 1;
  by_vendor = insert v (count_at v c.by_vendor + 1) c.by_vendor;
}

-- The loop over the probed devices.
unfoldable pub count_gpus : List ProbeDevice → GpuCounts → GpuCounts
count_gpus [] c = c
count_gpus (d ∷ rest) c =
    count_gpus rest (if is_gpu d.kind then count_gpu (vendor_name d.pci_vendor) c else c)

unfoldable pub probed_gpus : List ProbeDevice → GpuCounts
unfolding count_gpus
probed_gpus devices = count_gpus devices (record { total = 0; by_vendor = [] })

-- What the loop over llmfit's GPUs ends with.
pub data Found (F : Type 0) : Type 0 where
  nothing ambiguous : Found F
  one : Gpu F → Found F

module _ {F : Type 0} where
  unfoldable pub find_vendor : String → List (Gpu F) → Option (Gpu F) → Found F
  find_vendor vendor [] none = nothing
  find_vendor vendor [] (some m) = one m
  find_vendor vendor (g ∷ rest) none =
      find_vendor vendor rest (if vendor_of g == vendor then some g else none)
  find_vendor vendor (g ∷ rest) (some m) =
      let later = find_vendor vendor rest (some m) in
      if vendor_of g == vendor then ambiguous else later

  -- `covered`
  abbrev pub covered : Gpu F → ℕ
  covered g = if eqb g.count 0 then 1 else g.count

  -- The last resort.
  unfoldable pub only_gpu : List (Gpu F) → ℕ → Option (Gpu F)
  only_gpu (g ∷ []) total = if eqb total 1 && vendor_of g == "" then some g else none
  only_gpu _ total = none

  unfoldable pub settle : List (Gpu F) → ℕ → ℕ → Found F → Option (Gpu F)
  unfolding only_gpu
  settle gpus same total nothing = only_gpu gpus total
  settle gpus same total ambiguous = none
  settle gpus same total (one g) = if ltb (covered g) same then none else some g

  -- `matchLLMFitGPU`; `none` as the report is a nil pointer.
  unfoldable pub match_llmfit_gpu :
      Option (System F) → ProbeDevice → String → ℕ → ℕ → Option (Gpu F)
  unfolding find_vendor settle
  match_llmfit_gpu none d vendor same total = none
  match_llmfit_gpu (some sys) d vendor same total =
      if is_gpu d.kind then settle sys.gpus same total (find_vendor vendor sys.gpus none) else none
