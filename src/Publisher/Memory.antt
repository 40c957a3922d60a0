-- ===== src/Publisher/Memory.antt =====
-- The memory that BuildDevices publishes of a device, and what the evaluation admits of it.
use llmfit_dra.Prelude.{
  ℕ, ◌≡◌, Option, none, some, [], ◌∷◌, Bool, true, false, if◌then◌else◌, ltb, eqb, leb, arith,
  is_some, refl, ◌∙◌, Option-cases, inl, inr,
}
use llmfit_dra.Prelude.Maps.{lookup}
use llmfit_dra.Prelude.Int64.{of_u64}
use llmfit_dra.Resource.{Device, bool_at}
use llmfit_dra.Index.{Entry, lookup_entry}
use llmfit_dra.Llmfit.{FloatOps, Gpu, System}
use llmfit_dra.Probe.{Kind, ProbeDevice, healthy}
use llmfit_dra.ModelClaim.Satisfiable.Assess.{Query, assess, fits}
use llmfit_dra.Publisher.Match.{GpuCounts, match_llmfit_gpu, vendor_name, count_at}
use llmfit_dra.Publisher.Attributes.{
  Attributes, capability, index_capability, cpu_capability, gib_bytes, vram_budget,
}
use llmfit_dra.Publisher.Build.{Sources, base_attributes, kind_capability, pool_bytes, published}
use llmfit_dra.Publisher.Marks.{HasMarks, published-HasMarks}

-- What any device that the evaluation admits has.
fits-needs :
    (q : Query) (dev : Device)
    → fits (assess q dev) ≡ true
    → bool_at dev.attributes "healthy" ≡ some true × is_some (lookup "memory" dev.capacity) ≡ true
unfolding fits assess
fits-needs q dev h = ground arith

abbrev pub larger : ℕ → ℕ → ℕ
larger a b = if leb b a then a else b

module _ {F : Type 0} (ops : FloatOps F) (src : Sources F) (counts : GpuCounts) where
  -- A card's own memory, or the larger of it and the system's if the source says that they are one.
  abbrev pub card_memory : Bool → ProbeDevice → ℕ
  card_memory shared d = if shared then larger d.vram_bytes src.system_ram else d.vram_bytes

  -- Whether the card shares the system's memory: by its llmfit match, or else by its index entry.
  abbrev pub is_shared : Option (Gpu F) → Option Entry → Bool
  is_shared (some g) entry = g.unified_memory
  is_shared none (some e) = e.unified_memory
  is_shared none none = false

  -- The memory budget that llmfit reports of its match, 0 if it reports none.
  abbrev pub reported : Option (Gpu F) → ℕ
  reported none = 0
  reported (some g) = elim g.vram_gb [
    | none ↦ 0
    | some x ↦ if ops.positive x then gib_bytes ops x else 0
  ]

  abbrev pub accelerator_memory : Option (Gpu F) → Option Entry → ProbeDevice → ℕ
  accelerator_memory lf entry d =
      if ltb 0 (reported lf) then reported lf else card_memory (is_shared lf entry) d

  abbrev pub host_memory : Option (System F) → ProbeDevice → ℕ
  host_memory none d = d.system_ram_bytes
  host_memory (some sys) d =
      if ops.positive sys.total_ram_gb then gib_bytes ops sys.total_ram_gb else d.system_ram_bytes

  -- The memory of a device of each kind.
  abbrev pub known_memory : Kind → ProbeDevice → ℕ
  known_memory Kind.kind_nic d = 0
  known_memory Kind.kind_cpu d = host_memory src.sys d
  known_memory _ d =
      accelerator_memory
        (match_llmfit_gpu src.sys d (vendor_name d.pci_vendor)
          (count_at (vendor_name d.pci_vendor) counts.by_vendor) counts.total)
        (lookup_entry src.idx d.pci_vendor d.pci_device) d

  pool-card :
      (u : Bool) (d : ProbeDevice)
      → pool_bytes (some u) d.vram_bytes src.system_ram ≡ card_memory u d
  unfolding pool_bytes
  pool-card true d = ground arith
  pool-card false d = refl

  budget-reported : (g : Gpu F) → vram_budget ops g.vram_gb ≡ reported (some g)
  unfolding vram_budget
  budget-reported g = elim (Option-cases g.vram_gb) [ inl e ↦ rw e refl | inr (x, e) ↦ rw e refl ]

  no_entry :
      (b : Bool) (d : ProbeDevice)
      → pool_bytes (if b then some false else none) d.vram_bytes src.system_ram ≡ d.vram_bytes
  unfolding pool_bytes
  no_entry true d = refl
  no_entry false d = refl

  capability-memory :
      (lf : Option (Gpu F)) (entry : Option Entry) (d : ProbeDevice) (m : Attributes)
      → (if eqb (capability ops lf entry d m).mem_bytes 0
          then pool_bytes (capability ops lf entry d m).unified d.vram_bytes src.system_ram
          else (capability ops lf entry d m).mem_bytes)
        ≡ accelerator_memory lf entry d
  unfolding capability index_capability
  capability-memory none none d m = no_entry (ltb 0 d.vram_bytes) d
  capability-memory none (some e) d m = pool-card e.unified_memory d
  capability-memory (some g) entry d m =
      ground (arith, budget-reported g, pool-card g.unified_memory d)

  cpu-memory :
      (o : Option (System F)) (d : ProbeDevice) (m : Attributes)
      → (cpu_capability ops o d m).mem_bytes ≡ host_memory o d
  unfolding cpu_capability
  cpu-memory none d m = refl
  cpu-memory (some sys) d m = refl

  kind-memory :
      (k : Kind) (d : ProbeDevice) (m : Attributes)
      → (kind_capability ops k src counts d m).mem_bytes ≡ known_memory k d
  unfolding kind_capability
  kind-memory Kind.kind_nic d m = refl
  kind-memory Kind.kind_cpu d m = cpu-memory src.sys d m
  kind-memory Kind.kind_gpu d m = capability-memory _ _ d _
  kind-memory Kind.kind_npu d m = capability-memory _ _ d _

  published-capacity :
      (d : ProbeDevice)
      → lookup "memory" (published ops src counts d).capacity
        ≡ (if ltb 0 (known_memory d.kind d) then some (of_u64 (known_memory d.kind d)) else none)
  unfolding published lookup
  published-capacity d = rw (kind-memory d.kind d (base_attributes d)) (chosen _)
    where
      chosen :
          (b : Bool)
          → lookup "memory" (if b then ("memory", of_u64 (known_memory d.kind d)) ∷ [] else [])
            ≡ (if b then some (of_u64 (known_memory d.kind d)) else none)
      chosen true = refl
      chosen false = refl

  -- The evaluation admits a published device only if the probe reports it healthy and its memory is
  -- known, and then the published capacity is that memory: the budget that llmfit reports of the card
  -- that it matches; without one, the card's own VRAM, or the larger of it and the system's memory
  -- where the match, or else the index, says that they are shared; the host's memory for a CPU; and
  -- none for a NIC.
  pub published-fits :
      (q : Query) (d : ProbeDevice)
      → fits (assess q (published ops src counts d)) ≡ true
      → (healthy d).0 ≡ true
        × ltb 0 (known_memory d.kind d) ≡ true
        × lookup "memory" (published ops src counts d).capacity
          ≡ some (of_u64 (known_memory d.kind d))
  published-fits q d h =
      let needs = fits-needs q (published ops src counts d) h in
      let capacity = published-capacity d in
      let known : ltb 0 (known_memory d.kind d) ≡ true = ground (arith, needs, capacity) in
      (
        ground (arith, needs, HasMarks.healthy_at (published-HasMarks ops src counts d)),
        known,
        capacity ∙ rw known refl,
      )
