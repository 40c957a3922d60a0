-- ===== src/Publisher/Writes.antt =====
-- What the writes of a device's attributes keep: a property that a write of a plain attribute
-- keeps, all the branches of BuildDevices keep.
use llmfit_dra.Prelude.{
  String, ◌≡◌, Option, none, some, Bool, true, false, not, ◌&&◌, ◌||◌, ◌==◌, if◌then◌else◌, arith,
  is_some, refl, subst, Bool-cases, inl, inr,
}
use llmfit_dra.Prelude.Maps.{insert}
use llmfit_dra.Prelude.Int64.{ℤ, pos, ltb64}
use llmfit_dra.Resource.{DeviceAttribute, string_attr, int_attr}
use llmfit_dra.Index.{Entry}
use llmfit_dra.Llmfit.{FloatOps, Gpu, System}
use llmfit_dra.Probe.{Kind, ProbeDevice}
use llmfit_dra.Publisher.Match.{is_gpu, GpuCounts}
use llmfit_dra.Publisher.Attributes.{
  Attributes, truncate, set_text, set_positive, set_model, set_place, nic_attributes,
  set_index_bandwidth, set_index_compute, index_capability, set_bandwidth, capability,
  cpu_capability,
}
use llmfit_dra.Publisher.Build.{
  Options, Sources, base_attributes, set_unified, set_vendor_managed, fitness_only,
  accelerator_capability, kind_capability, published,
}

-- The declared type of an attribute: what its value must be by its name.
abbrev is_flag : String → Bool
is_flag key =
    key == "healthy" || key == "unifiedMemory" || key == "indexed" || key == "vendorManaged"

abbrev is_number : String → Bool
is_number key = key == "memoryBandwidthGBs" || key == "computeTFLOPS" || key == "rateGbps"

-- The value has the kind that is declared for the key.
unfoldable pub has_type : String → DeviceAttribute → Bool
has_type key a =
    if is_flag key
    then is_some a.bool_value
    else if is_number key
    then is_some a.int_value
    else is_some a.string_value

-- Any other name than those that the device's own branch does not decide.
unfoldable pub is_other : String → Bool
is_other key = not (key == "kind") && not (key == "healthy") && not (key == "vendorManaged")

unfoldable pub is_plain : String → DeviceAttribute → Bool
unfolding has_type is_other
is_plain key a = has_type key a && is_other key

not_gpu : (opts : Options) (d : ProbeDevice) → is_gpu d.kind ≡ false → fitness_only opts d ≡ false
not_gpu opts d h = ground arith

module _ (P : Attributes → Type 0)
    (write : (key : String) (a : DeviceAttribute) (m : Attributes)
      → is_plain key a ≡ true
      → P m
      → P (insert key a m)) where
  write_if :
      (b : Bool) (key : String) (a : DeviceAttribute) (m : Attributes)
      → is_plain key a ≡ true
      → P m
      → P (if b then insert key a m else m)
  write_if true key a m plain p = write key a m plain p
  write_if false key a m plain p = p

  write_unless :
      (b : Bool) (key : String) (a : DeviceAttribute) (m : Attributes)
      → is_plain key a ≡ true
      → P m
      → P (if b then m else insert key a m)
  write_unless true key a m plain p = p
  write_unless false key a m plain p = write key a m plain p

  set_text-keeps :
      (key v : String) (m : Attributes)
      → is_plain key (string_attr v) ≡ true
      → P m
      → P (set_text key v m)
  unfolding set_text
  set_text-keeps key v m plain p = write_unless (v == "") key (string_attr v) m plain p

  set_positive-keeps :
      (key : String) (n : ℤ) (m : Attributes)
      → is_plain key (int_attr n) ≡ true
      → P m
      → P (set_positive key n m)
  unfolding set_positive
  set_positive-keeps key n m plain p = write_if (ltb64 (pos 0) n) key (int_attr n) m plain p

  set_model-keeps : (model : String) (m : Attributes) → P m → P (set_model model m)
  unfolding set_model is_plain
  set_model-keeps model m p =
      write_unless (model == "") "model" (string_attr (truncate model 64)) m refl p

  set_place-keeps : (d : ProbeDevice) (m : Attributes) → P m → P (set_place d m)
  unfolding set_place is_plain
  set_place-keeps d m p = search (set_text-keeps)

  nic_attributes-keeps : (d : ProbeDevice) (m : Attributes) → P m → P (nic_attributes d m)
  unfolding nic_attributes is_plain
  nic_attributes-keeps d m p =
      search (write, set_text-keeps, set_positive-keeps, set_place-keeps) depth 12

  set_index_bandwidth-keeps :
      (entry : Option Entry) (m : Attributes) → P m → P (set_index_bandwidth entry m)
  unfolding set_index_bandwidth is_plain
  set_index_bandwidth-keeps none m p = p
  set_index_bandwidth-keeps (some e) m p = search (set_positive-keeps)

  set_index_compute-keeps :
      (entry : Option Entry) (m : Attributes) → P m → P (set_index_compute entry m)
  unfolding set_index_compute is_plain
  set_index_compute-keeps none m p = p
  set_index_compute-keeps (some e) m p = search (set_positive-keeps)

  index_capability-keeps :
      (entry : Option Entry) (d : ProbeDevice) (m : Attributes)
      → P m
      → P (index_capability entry d m).attributes
  unfolding index_capability is_plain
  index_capability-keeps none d m p = search (write)
  index_capability-keeps (some e) d m p =
      search (write, set_index_compute-keeps, set_index_bandwidth-keeps)

  set_unified-keeps : (u : Option Bool) (m : Attributes) → P m → P (set_unified u m)
  unfolding is_plain
  set_unified-keeps none m p = p
  set_unified-keeps (some u) m p = search (write)

  -- A device that is no GPU is never marked.
  unmarked :
      (Q : Attributes → Type 0) (opts : Options) (d : ProbeDevice)
      → is_gpu d.kind ≡ false
      → ((x : Attributes) → P x → Q (set_vendor_managed (fitness_only opts d) x))
      → (x : Attributes) → P x
      → Q x
  unmarked Q opts d h mark x p =
      subst (λ b. Q (set_vendor_managed b x)) {y = false} (not_gpu opts d h) (mark x p)

  module _ {F : Type 0} (ops : FloatOps F) where
    set_bandwidth-keeps :
        (bw : Option F) (entry : Option Entry) (m : Attributes)
        → P m
        → P (set_bandwidth ops bw entry m)
    unfolding set_bandwidth is_plain
    set_bandwidth-keeps none entry m p = set_index_bandwidth-keeps entry m p
    set_bandwidth-keeps (some bw) entry m p = elim (Bool-cases (ops.positive bw)) [
      | inl h ↦ rw (h) (write "memoryBandwidthGBs" (int_attr (ops.to_i64 bw)) m refl p)
      | inr h ↦ rw (h) (set_index_bandwidth-keeps entry m p)
    ]

    capability-keeps :
        (lf : Option (Gpu F)) (entry : Option Entry) (d : ProbeDevice) (m : Attributes)
        → P m
        → P (capability ops lf entry d m).attributes
    unfolding capability is_plain
    capability-keeps none entry d m p = index_capability-keeps entry d m p
    capability-keeps (some lf) entry d m p =
        search (write, set_text-keeps, set_index_compute-keeps, set_bandwidth-keeps) depth 12

    cpu_capability-keeps :
        (sys : Option (System F)) (d : ProbeDevice) (m : Attributes)
        → P m
        → P (cpu_capability ops sys d m).attributes
    unfolding cpu_capability is_plain
    cpu_capability-keeps none d m p = search (write, set_model-keeps) depth 12
    cpu_capability-keeps (some sys) d m p = search (write, set_model-keeps) depth 12

    -- With what the vendor-managed mark makes of the property.
    accelerator_capability-keeps :
        (Q : Attributes → Type 0) (src : Sources F) (counts : GpuCounts) (d : ProbeDevice)
        (m : Attributes)
        → ((x : Attributes) → P x → Q (set_vendor_managed (fitness_only src.opts d) x))
        → P m
        → Q (accelerator_capability ops src counts d m).attributes
    unfolding accelerator_capability is_plain
    accelerator_capability-keeps Q src counts d m mark p =
        mark _ (search (write, set_place-keeps, capability-keeps, set_unified-keeps) depth 12)

    kind_capability-keeps :
        (Q : Attributes → Type 0) (k : Kind) (src : Sources F) (counts : GpuCounts)
        (d : ProbeDevice) (m : Attributes)
        → d.kind ≡ k
        → ((x : Attributes) → P x → Q (set_vendor_managed (fitness_only src.opts d) x))
        → P m
        → Q (kind_capability ops k src counts d m).attributes
    unfolding kind_capability
    kind_capability-keeps Q Kind.kind_nic src counts d m h mark p =
        unmarked Q src.opts d (ground arith) mark _ (nic_attributes-keeps d m p)
    kind_capability-keeps Q Kind.kind_cpu src counts d m h mark p =
        unmarked Q src.opts d (ground arith) mark _ (cpu_capability-keeps src.sys d m p)
    kind_capability-keeps Q Kind.kind_gpu src counts d m h mark p =
        accelerator_capability-keeps Q src counts d m mark p
    kind_capability-keeps Q Kind.kind_npu src counts d m h mark p =
        accelerator_capability-keeps Q src counts d m mark p

    -- A property of the attributes that every device has, which the plain writes keep, becomes what
    -- the vendor-managed mark makes of it.
    pub published-keeps :
        (Q : Attributes → Type 0) (src : Sources F) (counts : GpuCounts) (d : ProbeDevice)
        → ((x : Attributes) → P x → Q (set_vendor_managed (fitness_only src.opts d) x))
        → P (base_attributes d)
        → Q (published ops src counts d).attributes
    unfolding published
    published-keeps Q src counts d mark p =
        kind_capability-keeps Q d.kind src counts d (base_attributes d) refl mark p
