-- ===== src/Publisher/Schema.antt =====
-- The types of the attributes that BuildDevices publishes.
use llmfit_dra.Prelude.{
  String, ◌≡◌, Option, none, some, List, [], Bool, true, false, arith, is_some, refl, All,
}
use llmfit_dra.Prelude.Maps.{insert, all_entries, all_entries-insert, lookup-all_entries}
use llmfit_dra.Resource.{DeviceAttribute, Device, string_attr, bool_attr}
use llmfit_dra.Llmfit.{FloatOps}
use llmfit_dra.Probe.{ProbeDevice}
use llmfit_dra.Publisher.Match.{GpuCounts, probed_gpus}
use llmfit_dra.Publisher.Attributes.{Attributes, set_text}
use llmfit_dra.Publisher.Build.{
  Sources, base_attributes, set_vendor_managed, published, build_devices,
}
use llmfit_dra.Publisher.Names.{build_devices-All}
use llmfit_dra.Publisher.Writes.{has_type, is_plain, published-keeps}
use llmfit_dra.ModelClaim.Cel.Agrees.{IsTyped, IntTyped, BoolTyped}

-- Every attribute has the type that is declared for its name.
unfoldable pub well_typed : Attributes → Bool
well_typed m = all_entries has_type m

insert-typed :
    (key : String) (a : DeviceAttribute) (m : Attributes)
    → has_type key a ≡ true
    → well_typed m ≡ true
    → well_typed (insert key a m) ≡ true
unfolding well_typed
insert-typed key a m h typed = all_entries-insert has_type key a m h typed

insert_plain-typed :
    (key : String) (a : DeviceAttribute) (m : Attributes)
    → is_plain key a ≡ true
    → well_typed m ≡ true
    → well_typed (insert key a m) ≡ true
unfolding is_plain
insert_plain-typed key a m h typed = insert-typed key a m (ground arith) typed

set_vendor_managed-typed :
    (managed : Bool) (m : Attributes)
    → well_typed m ≡ true
    → well_typed (set_vendor_managed managed m) ≡ true
unfolding has_type
set_vendor_managed-typed true m typed = insert-typed "vendorManaged" (bool_attr true) m refl typed
set_vendor_managed-typed false m typed = typed

set_text-typed :
    (key v : String) (m : Attributes)
    → has_type key (string_attr v) ≡ true
    → well_typed m ≡ true
    → well_typed (set_text key v m) ≡ true
unfolding set_text
set_text-typed key v m h typed = ground (arith, insert-typed key (string_attr v) m h typed)

empty-typed : well_typed [] ≡ true
unfolding well_typed all_entries
empty-typed = refl

base_attributes-typed : (d : ProbeDevice) → well_typed (base_attributes d) ≡ true
unfolding base_attributes has_type
base_attributes-typed d = search (insert-typed, set_text-typed, empty-typed)

Int-typed :
    (o : Option DeviceAttribute)
    → ((a : DeviceAttribute) → o ≡ some a → is_some a.int_value ≡ true)
    → IntTyped o
Int-typed none h = tt
Int-typed (some a) h = h a refl

Bool-typed :
    (o : Option DeviceAttribute)
    → ((a : DeviceAttribute) → o ≡ some a → is_some a.bool_value ≡ true)
    → BoolTyped o
Bool-typed none h = tt
Bool-typed (some a) h = h a refl

-- What the declared types say of the attributes that a claim's selector reads.
pub well_typed-IsTyped : (dev : Device) → well_typed dev.attributes ≡ true → IsTyped dev
unfolding well_typed has_type
well_typed-IsTyped dev typed = record {
  bandwidth =
      Int-typed _ (λ a. lookup-all_entries has_type "memoryBandwidthGBs" a dev.attributes typed);
  compute = Int-typed _ (λ a. lookup-all_entries has_type "computeTFLOPS" a dev.attributes typed);
  healthy = Bool-typed _ (λ a. lookup-all_entries has_type "healthy" a dev.attributes typed);
}

module _ {F : Type 0} (ops : FloatOps F) (src : Sources F) where
  pub published-typed :
      (counts : GpuCounts) (d : ProbeDevice)
      → well_typed (published ops src counts d).attributes ≡ true
  published-typed counts d =
      published-keeps (λ m. well_typed m ≡ true) insert_plain-typed ops (λ m. well_typed m ≡ true)
        src counts d (set_vendor_managed-typed _) (base_attributes-typed d)

  -- Every attribute of every published device has the type that its name declares: the flags are
  -- Booleans, the bandwidth, the compute and the link rate are numbers, all else is text.
  pub build_devices-typed :
      (devices : List ProbeDevice)
      → All (λ dev. well_typed dev.attributes ≡ true) (build_devices ops devices src)
  build_devices-typed devices =
      build_devices-All ops src _ devices (published-typed (probed_gpus devices))

  -- Hence a claim's selector never meets an attribute of another type.
  pub build_devices-IsTyped :
      (devices : List ProbeDevice) → All IsTyped (build_devices ops devices src)
  build_devices-IsTyped devices =
      build_devices-All ops src IsTyped devices
        (λ d. well_typed-IsTyped _ (published-typed (probed_gpus devices) d))
