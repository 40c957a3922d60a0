-- ===== src/Probe/Keys.antt =====
-- Walk of probe.go: within a kind each index is used once.
use llmfit_dra.Prelude.{
  String, ℕ, ◌+◌, ◌≤◌, ◌≡◌, List, [], ◌∷◌, Bool, true, false, ◌&&◌, ◌||◌, ◌==◌, if◌then◌else◌, ltb,
  eqb, arith, refl, count,
}
use llmfit_dra.Prelude.Maps.{GoMap, insert}
use llmfit_dra.Probe.{Kind, ProbeDevice}
use llmfit_dra.Probe.Sysfs.{Sysfs, DirAnswer, entries, absent, unreadable, join_path}
use llmfit_dra.Probe.Devices.{
  class_device, class_devices, walk_class, is_numbered, with_nodes, nic_device, passed_over,
  function_key, nic_devices, walk_infiniband,
}
use llmfit_dra.Probe.Fabric.{nic-kind}
use llmfit_dra.Probe.Functions.{IfSome}

abbrev pub same_kind : Kind → Kind → Bool
same_kind Kind.kind_gpu Kind.kind_gpu = true
same_kind Kind.kind_npu Kind.kind_npu = true
same_kind Kind.kind_cpu Kind.kind_cpu = true
same_kind Kind.kind_nic Kind.kind_nic = true
same_kind _ _ = false

abbrev pub at_key : Kind → ℕ → ProbeDevice → Bool
at_key k i d = same_kind d.kind k && eqb d.index i

-- In a class walk from an index on, each index is used once, and no smaller one.
one_more-key :
    (k : Kind) (i n next : ℕ) (keep : Bool) (d : ProbeDevice) (later : List ProbeDevice)
    → d.index ≡ n
    → next ≡ (if keep then n + 1 else n)
    → count (at_key k i) later ≤ (if ltb i next then 0 else 1)
    → count (at_key k i) (if keep then d ∷ later else later) ≤ (if ltb i n then 0 else 1)
one_more-key k i n next keep d later at_n step bound = ground arith

-- A device of another kind does not count.
one_more-kind :
    (k own : Kind) (i : ℕ) (keep : Bool) (d : ProbeDevice) (later : List ProbeDevice)
    → d.kind ≡ own
    → same_kind own k ≡ false
    → count (at_key k i) later ≡ 0
    → count (at_key k i) (if keep then d ∷ later else later) ≡ 0
one_more-kind k own i keep d later is_own other none_later = ground (arith, is_own)

skip_one-key :
    (k : Kind) (i n next : ℕ) (skip : Bool) (d : ProbeDevice) (later : List ProbeDevice)
    → d.index ≡ n
    → next ≡ (if skip then n else n + 1)
    → count (at_key k i) later ≤ (if ltb i next then 0 else 1)
    → count (at_key k i) (if skip then later else d ∷ later) ≤ (if ltb i n then 0 else 1)
skip_one-key k i n next skip d later at_n step bound = ground arith

skip_one-kind :
    (k own : Kind) (i : ℕ) (skip : Bool) (d : ProbeDevice) (later : List ProbeDevice)
    → d.kind ≡ own
    → same_kind own k ≡ false
    → count (at_key k i) later ≡ 0
    → count (at_key k i) (if skip then later else d ∷ later) ≡ 0
skip_one-kind k own i skip d later is_own other none_later = ground (arith, is_own)

-- A list of one kind, in which each index is used once.
abbrev pub HasKeys : Kind → List ProbeDevice → Type 0
HasKeys own ds = (k : Kind) (i : ℕ) → count (at_key k i) ds ≤ (if same_kind own k then 1 else 0)

module _ (fs : Sysfs) (own : Kind)
    (kinds : (dir name : String) (index : ℕ) → (class_device fs own dir name index).kind ≡ own)
    (indexes : (dir name : String) (index : ℕ)
      → (class_device fs own dir name index).index ≡ index) where
  class_devices-key :
      (k : Kind) (i : ℕ) (dir prefix : String) (names : List String) (n : ℕ)
      → count (at_key k i) (class_devices fs own dir prefix names n) ≤ (if ltb i n then 0 else 1)
  unfolding class_devices
  class_devices-key k i dir prefix [] n = ground arith
  class_devices-key k i dir prefix (name ∷ rest) n =
      let keep = is_numbered prefix name in
      let next = if keep then n + 1 else n in
      one_more-key k i n next keep (class_device fs own dir name n)
        (class_devices fs own dir prefix rest next) (indexes dir name n) refl
        (class_devices-key k i dir prefix rest next)

  class_devices-other :
      (k : Kind) (i : ℕ) (dir prefix : String) (names : List String) (n : ℕ)
      → same_kind own k ≡ false
      → count (at_key k i) (class_devices fs own dir prefix names n) ≡ 0
  unfolding class_devices
  class_devices-other k i dir prefix [] n other = refl
  class_devices-other k i dir prefix (name ∷ rest) n other =
      let keep = is_numbered prefix name in
      let next = if keep then n + 1 else n in
      one_more-kind k own i keep (class_device fs own dir name n)
        (class_devices fs own dir prefix rest next) (kinds dir name n) other
        (class_devices-other k i dir prefix rest next other)

  class_devices-HasKeys :
      (dir prefix : String) (names : List String)
      → HasKeys own (class_devices fs own dir prefix names 0)
  class_devices-HasKeys dir prefix names k i =
      ground (
        arith,
        class_devices-key k i dir prefix names 0,
        class_devices-other k i dir prefix names 0,
      )

  pub walk_class-HasKeys :
      (dir prefix : String) (answer : DirAnswer)
      → IfSome (HasKeys own) (walk_class fs own dir prefix answer)
  unfolding walk_class
  walk_class-HasKeys dir prefix absent = λ k i. ground arith
  walk_class-HasKeys dir prefix unreadable = tt
  walk_class-HasKeys dir prefix (entries names) = class_devices-HasKeys dir prefix names

module _ (fs : Sysfs) where
  nic-index :
      (root dir name : String) (index : ℕ) → (nic_device fs root dir name index).index ≡ index
  unfolding nic_device
  nic-index root dir name index = refl

  pub gpu-index :
      (dir name : String) (index : ℕ) → (class_device fs Kind.kind_gpu dir name index).index ≡ index
  unfolding class_device with_nodes
  gpu-index dir name index = refl

  pub npu-index :
      (dir name : String) (index : ℕ) → (class_device fs Kind.kind_npu dir name index).index ≡ index
  unfolding class_device with_nodes
  npu-index dir name index = refl

  nic_devices-key :
      (k : Kind) (i : ℕ) (root dir : String) (names : List String) (n : ℕ) (seen : GoMap Bool)
      → count (at_key k i) (nic_devices fs root dir names n seen) ≤ (if ltb i n then 0 else 1)
  unfolding nic_devices
  nic_devices-key k i root dir [] n seen = ground arith
  nic_devices-key k i root dir (name ∷ rest) n seen =
      let d = nic_device fs root dir name n in
      let key = function_key fs dir name d.pci_addr in
      let skip = passed_over fs dir name key seen in
      let next = if skip then n else n + 1 in
      let seen_next = if skip || key == "" then seen else insert key true seen in
      skip_one-key k i n next skip d (nic_devices fs root dir rest next seen_next)
        (nic-index root dir name n) refl (nic_devices-key k i root dir rest next seen_next)

  nic_devices-other :
      (k : Kind) (i : ℕ) (root dir : String) (names : List String) (n : ℕ) (seen : GoMap Bool)
      → same_kind Kind.kind_nic k ≡ false
      → count (at_key k i) (nic_devices fs root dir names n seen) ≡ 0
  unfolding nic_devices
  nic_devices-other k i root dir [] n seen other = refl
  nic_devices-other k i root dir (name ∷ rest) n seen other =
      let d = nic_device fs root dir name n in
      let key = function_key fs dir name d.pci_addr in
      let skip = passed_over fs dir name key seen in
      let next = if skip then n else n + 1 in
      let seen_next = if skip || key == "" then seen else insert key true seen in
      skip_one-kind k Kind.kind_nic i skip d (nic_devices fs root dir rest next seen_next)
        (nic-kind fs root dir name n) other
        (nic_devices-other k i root dir rest next seen_next other)

  pub walk_infiniband-HasKeys :
      (root : String) (answer : DirAnswer)
      → IfSome (HasKeys Kind.kind_nic) (walk_infiniband fs root answer)
  unfolding walk_infiniband
  walk_infiniband-HasKeys root absent = λ k i. ground arith
  walk_infiniband-HasKeys root unreadable = tt
  walk_infiniband-HasKeys root (entries names) = λ k i.
      let dir = join_path root "class/infiniband" in
      ground
        (arith, nic_devices-key k i root dir names 0 [], nic_devices-other k i root dir names 0 [])
