-- ===== src/Probe/Fabric.antt =====
-- Walk of probe.go: one device for each PCI function of the fabric.
use llmfit_dra.Prelude.{
  String, ℕ, ◌+◌, ◌≤◌, ◌≡◌, List, [], ◌∷◌, Bool, true, false, not, ◌&&◌, ◌||◌, ◌==◌, if◌then◌else◌,
  ltb, arith, refl, eq_iff, count,
}
use llmfit_dra.Prelude.Maps.{GoMap, insert, has_key, lookup-insert}
use llmfit_dra.Probe.{Kind, ProbeDevice, drop_fabric_functions}
use llmfit_dra.Probe.Sysfs.{Sysfs, join_path}
use llmfit_dra.Probe.Devices.{
  class_device, class_devices, with_nodes, nic_device, passed_over, function_key, nic_devices,
}
use llmfit_dra.Probe.Walk.{fabric_addresses, insert_device, sort_devices}

abbrev pub is_compute : Kind → Bool
is_compute Kind.kind_gpu = true
is_compute Kind.kind_npu = true
is_compute _ = false

abbrev pub is_nic : Kind → Bool
is_nic Kind.kind_nic = true
is_nic _ = false

-- The compute devices and the NICs of a PCI address.
abbrev pub compute_at : String → ProbeDevice → Bool
compute_at addr d = is_compute d.kind && d.pci_addr == addr

abbrev pub nic_at : String → ProbeDevice → Bool
nic_at addr d = is_nic d.kind && d.pci_addr == addr

count-insert_device :
    (p : ProbeDevice → Bool) (d : ProbeDevice) (xs : List ProbeDevice)
    → count p (insert_device d xs) ≡ count p (d ∷ xs)
unfolding insert_device
count-insert_device p d [] = refl
count-insert_device p d (e ∷ rest) = ground (arith, count-insert_device p d rest)

pub count-sort_devices :
    (p : ProbeDevice → Bool) (xs : List ProbeDevice) → count p (sort_devices xs) ≡ count p xs
unfolding sort_devices
count-sort_devices p [] = refl
count-sort_devices p (d ∷ rest) =
    ground (arith, count-insert_device p d (sort_devices rest), count-sort_devices p rest)

abbrev note_fabric : String → GoMap Bool → GoMap Bool
note_fabric at fabric = if at == "" then fabric else insert at true fabric

note_fabric-key :
    (addr at : String) (fabric : GoMap Bool)
    → (addr == "") ≡ false
    → has_key addr (note_fabric at fabric) ≡ (has_key addr fabric || at == addr)
note_fabric-key addr at fabric h = ground (arith, lookup-insert at addr true fabric, eq_iff at addr)

pub fabric_addresses-key :
    (addr : String) (nics : List ProbeDevice) (fabric : GoMap Bool)
    → (addr == "") ≡ false
    → (has_key addr fabric || ltb 0 (count (nic_at addr) nics)) ≡ true
    → has_key addr (fabric_addresses nics fabric) ≡ true
unfolding fabric_addresses
fabric_addresses-key addr [] fabric h k = ground arith
fabric_addresses-key addr (n ∷ rest) fabric h k =
    fabric_addresses-key addr rest (note_fabric n.pci_addr fabric) h
      (ground (arith, note_fabric-key addr n.pci_addr fabric h))

-- No compute device that is kept has the address of a fabric function.
pub dropped-compute :
    (addr : String) (ds : List ProbeDevice) (fabric : GoMap Bool)
    → (addr == "") ≡ false
    → has_key addr fabric ≡ true
    → count (compute_at addr) (drop_fabric_functions ds fabric) ≡ 0
unfolding drop_fabric_functions
dropped-compute addr [] fabric h k = refl
dropped-compute addr (d ∷ rest) fabric h k =
    ground (arith, dropped-compute addr rest fabric h k, eq_iff d.pci_addr addr)

-- Dropping adds nothing.
pub count-drop_fabric_functions :
    (p : ProbeDevice → Bool) (ds : List ProbeDevice) (fabric : GoMap Bool)
    → count p (drop_fabric_functions ds fabric) ≤ count p ds
unfolding drop_fabric_functions
count-drop_fabric_functions p [] fabric = omega arith
count-drop_fabric_functions p (d ∷ rest) fabric =
    ground (arith, count-drop_fabric_functions p rest fabric)

one_more-compute :
    (addr : String) (skip : Bool) (d : ProbeDevice) (later : List ProbeDevice)
    → d.kind ≡ Kind.kind_nic
    → count (compute_at addr) later ≡ 0
    → count (compute_at addr) (if skip then later else d ∷ later) ≡ 0
one_more-compute addr skip d later nic none_later = ground (arith, nic)

-- A NIC that is kept was not seen, and is seen from then on.
one_more-once :
    (addr key : String) (skip gone : Bool) (d : ProbeDevice) (later : List ProbeDevice)
    (seen : GoMap Bool)
    → (addr == "") ≡ false
    → ((d.pci_addr == "") ≡ false → key ≡ d.pci_addr)
    → skip ≡ (gone || not (key == "") && has_key key seen)
    → count (nic_at addr) later
      ≤ (if has_key addr (if skip || key == "" then seen else insert key true seen) then 0 else 1)
    → count (nic_at addr) (if skip then later else d ∷ later) ≤ (if has_key addr seen then 0 else 1)
one_more-once addr key skip gone d later seen h same_key skipped within =
    ground
      (arith, lookup-insert key addr true seen, eq_iff key addr, eq_iff d.pci_addr addr, same_key)

module _ (fs : Sysfs) where
  pub gpu-kind :
      (dir name : String) (index : ℕ)
      → (class_device fs Kind.kind_gpu dir name index).kind ≡ Kind.kind_gpu
  unfolding class_device with_nodes
  gpu-kind dir name index = refl

  pub npu-kind :
      (dir name : String) (index : ℕ)
      → (class_device fs Kind.kind_npu dir name index).kind ≡ Kind.kind_npu
  unfolding class_device with_nodes
  npu-kind dir name index = refl

  pub nic-kind :
      (root dir name : String) (index : ℕ)
      → (nic_device fs root dir name index).kind ≡ Kind.kind_nic
  unfolding nic_device
  nic-kind root dir name index = refl

  -- A class walk of a kind that is no NIC finds none.
  pub class_devices-nic :
      (k : Kind)
      → is_nic k ≡ false
      → ((dir name : String) (index : ℕ) → (class_device fs k dir name index).kind ≡ k)
      → (addr dir prefix : String) (names : List String) (index : ℕ)
      → count (nic_at addr) (class_devices fs k dir prefix names index) ≡ 0
  unfolding class_devices
  class_devices-nic k other kinds addr dir prefix [] index = refl
  class_devices-nic k other kinds addr dir prefix (name ∷ rest) index = ground (
    arith,
    kinds dir name index,
    class_devices-nic k other kinds addr dir prefix rest index,
    class_devices-nic k other kinds addr dir prefix rest (index + 1),
  )

  pub nic_devices-compute :
      (addr root dir : String) (names : List String) (index : ℕ) (seen : GoMap Bool)
      → count (compute_at addr) (nic_devices fs root dir names index seen) ≡ 0
  unfolding nic_devices
  nic_devices-compute addr root dir [] index seen = refl
  nic_devices-compute addr root dir (name ∷ rest) index seen =
      let d = nic_device fs root dir name index in
      let key = function_key fs dir name d.pci_addr in
      let skip = passed_over fs dir name key seen in
      let next = if skip then index else index + 1 in
      let seen_next = if skip || key == "" then seen else insert key true seen in
      one_more-compute addr skip d (nic_devices fs root dir rest next seen_next)
        (nic-kind root dir name index) (nic_devices-compute addr root dir rest next seen_next)

  function_key-addr :
      (dir name addr : String) → (addr == "") ≡ false → function_key fs dir name addr ≡ addr
  unfolding function_key
  function_key-addr dir name addr h = ground arith

  -- No two NICs have the same PCI address.
  pub nic_devices-once :
      (addr root dir : String) (names : List String) (index : ℕ) (seen : GoMap Bool)
      → (addr == "") ≡ false
      → count (nic_at addr) (nic_devices fs root dir names index seen)
        ≤ (if has_key addr seen then 0 else 1)
  unfolding nic_devices passed_over
  nic_devices-once addr root dir [] index seen h = ground arith
  nic_devices-once addr root dir (name ∷ rest) index seen h =
      let d = nic_device fs root dir name index in
      let key = function_key fs dir name d.pci_addr in
      let skip = passed_over fs dir name key seen in
      let next = if skip then index else index + 1 in
      let seen_next = if skip || key == "" then seen else insert key true seen in
      one_more-once addr key skip (not (fs.exists (join_path (join_path dir name) "device"))) d
        (nic_devices fs root dir rest next seen_next) seen h (function_key-addr dir name d.pci_addr)
        refl (nic_devices-once addr root dir rest next seen_next h)
