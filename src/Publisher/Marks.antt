-- ===== src/Publisher/Marks.antt =====
-- The attributes of a published device that decide whether the default classes see it: its kind,
-- its health and the vendor-managed mark.
use llmfit_dra.Prelude.{String, ◌≡◌, Option, none, some, Bool, true, false, if◌then◌else◌, arith}
use llmfit_dra.Prelude.Maps.{lookup, insert, lookup-insert}
use llmfit_dra.Resource.{DeviceAttribute, string_attr, bool_attr}
use llmfit_dra.Llmfit.{FloatOps}
use llmfit_dra.Probe.{kind_text, ProbeDevice, healthy}
use llmfit_dra.Publisher.Match.{GpuCounts}
use llmfit_dra.Publisher.Attributes.{Attributes, set_text}
use llmfit_dra.Publisher.Build.{
  Sources, base_attributes, set_vendor_managed, fitness_only, published,
}
use llmfit_dra.Publisher.Writes.{is_other, is_plain, published-keeps}

pub record HasMarks (k h v : Option DeviceAttribute) (m : Attributes) : Type 0 where
  pub kind_at : lookup "kind" m ≡ k
  pub healthy_at : lookup "healthy" m ≡ h
  pub managed_at : lookup "vendorManaged" m ≡ v

insert-HasMarks :
    {k h v : Option DeviceAttribute} (key : String) (a : DeviceAttribute) (m : Attributes)
    → is_plain key a ≡ true
    → HasMarks k h v m
    → HasMarks k h v (insert key a m)
unfolding is_plain is_other
insert-HasMarks key a m plain marks = record {
  kind_at = ground (arith, lookup-insert key "kind" a m, marks.kind_at);
  healthy_at = ground (arith, lookup-insert key "healthy" a m, marks.healthy_at);
  managed_at = ground (arith, lookup-insert key "vendorManaged" a m, marks.managed_at);
}

-- The mark of a vendor-managed device.
abbrev pub mark_of : Bool → Option DeviceAttribute
mark_of managed = if managed then some (bool_attr true) else none

set_vendor_managed-HasMarks :
    {k h : Option DeviceAttribute} (managed : Bool) (m : Attributes)
    → HasMarks k h none m
    → HasMarks k h (mark_of managed) (set_vendor_managed managed m)
set_vendor_managed-HasMarks false m marks = marks
set_vendor_managed-HasMarks true m marks = record {
  kind_at = ground (arith, lookup-insert "vendorManaged" "kind" (bool_attr true) m, marks.kind_at);
  healthy_at =
      ground (arith, lookup-insert "vendorManaged" "healthy" (bool_attr true) m, marks.healthy_at);
  managed_at = ground (arith, lookup-insert "vendorManaged" "vendorManaged" (bool_attr true) m);
}

base_attributes-HasMarks :
    (d : ProbeDevice)
    → HasMarks
        (some (string_attr (kind_text d.kind)))
        (some (bool_attr (healthy d).0))
        none
        (base_attributes d)
unfolding base_attributes set_text lookup insert
base_attributes-HasMarks d = record {
  kind_at = ground arith;
  healthy_at = ground arith;
  managed_at = ground arith;
}

module _ {F : Type 0} (ops : FloatOps F) (src : Sources F) where
  -- Each published device carries its probed kind and health, and is marked as vendor-managed
  -- exactly if it is fitness-only.
  pub published-HasMarks :
      (counts : GpuCounts) (d : ProbeDevice)
      → HasMarks
          (some (string_attr (kind_text d.kind)))
          (some (bool_attr (healthy d).0))
          (mark_of (fitness_only src.opts d))
          (published ops src counts d).attributes
  published-HasMarks counts d =
      published-keeps (HasMarks _ _ none) insert-HasMarks ops (HasMarks _ _ _) src counts d
        (set_vendor_managed-HasMarks (fitness_only src.opts d)) (base_attributes-HasMarks d)
