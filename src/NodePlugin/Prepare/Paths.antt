-- ===== src/NodePlugin/Prepare/Paths.antt =====
-- Which device paths the file of a prepared claim has.
use mathlib.Core.List
use llmfit_dra.Prelude.{
  String, Option, none, some, List, [], ◌∷◌, Bool, true, false, not, ◌&&◌, ◌||◌, ◌==◌,
  if◌then◌else◌, ◌≡◌, refl, ap, sym, subst, ◌∙◌, arith, any, any-append, eq_iff,
}
use llmfit_dra.Resource.{AllocationResult}
use llmfit_dra.ModelClaim.Backend.{driver_domain}
use llmfit_dra.Probe.{ProbeDevice}
use llmfit_dra.NodePlugin.Inventory.{Inventory, lookup_device}
use llmfit_dra.NodePlugin.Edits.{is_nic, keep_if, edits_for}
use llmfit_dra.NodePlugin.Prepare.{
  among, new_nodes, item_of, Items, missing, items, add_item, collect,
}
use llmfit_dra.NodePlugin.Prepare.Nodes.{item_nodes, own_results}

-- Whether a container that gets the device has to get the path: its render node and its device node,
-- the compute node of AMD's driver for a GPU of that driver, and the connection manager for a NIC
-- that has a device node.
abbrev pub needs : ProbeDevice → String → Bool
needs d p =
    not (d.render_node == "") && d.render_node == p
    || not (d.dev_node == "") && d.dev_node == p
    || d.driver == "amdgpu" && "/dev/kfd" == p
    || is_nic d.kind && not (d.dev_node == "") && "/dev/infiniband/rdma_cm" == p

among-keep_if :
    (p x : String) (b : Bool) (xs : List String)
    → among p (List.◌++◌ (keep_if b (x ∷ [])) xs) ≡ (b && x == p || among p xs)
unfolding keep_if
among-keep_if p x true xs = ground arith
among-keep_if p x false xs = refl

among-kept : (p x : String) (b : Bool) → among p (keep_if b (x ∷ [])) ≡ (b && x == p)
unfolding keep_if
among-kept p x true = ground arith
among-kept p x false = refl

edits_for-needs : (d : ProbeDevice) (p : String) → among p (edits_for d).device_nodes ≡ needs d p
unfolding edits_for
edits_for-needs d p =
    let nic = is_nic d.kind && not (d.dev_node == "") in
    let kfd =
      List.◌++◌ (keep_if (d.driver == "amdgpu") ("/dev/kfd" ∷ []))
        (keep_if nic ("/dev/infiniband/rdma_cm" ∷ [])) in
    let dev = List.◌++◌ (keep_if (not (d.dev_node == "")) (d.dev_node ∷ [])) kfd in
    ground (
      arith,
      among-keep_if p d.render_node (not (d.render_node == "")) dev,
      among-keep_if p d.dev_node (not (d.dev_node == "")) kfd,
      among-keep_if p "/dev/kfd" (d.driver == "amdgpu")
          (keep_if nic ("/dev/infiniband/rdma_cm" ∷ [])),
      among-kept p "/dev/infiniband/rdma_cm" nic,
    )

-- What new_nodes gives, and what it has seen then.
new_nodes-given :
    (p : String) (seen ns : List String)
    → (among p (new_nodes seen ns).0 || among p seen) ≡ (among p ns || among p seen)
unfolding new_nodes
new_nodes-given p seen [] = refl
new_nodes-given p seen (n ∷ rest) =
    ground (arith, new_nodes-given p seen rest, new_nodes-given p (n ∷ seen) rest, eq_iff n p)

new_nodes-seen :
    (p : String) (seen ns : List String)
    → among p (new_nodes seen ns).1 ≡ (among p ns || among p seen)
unfolding new_nodes
new_nodes-seen p seen [] = refl
new_nodes-seen p seen (n ∷ rest) =
    ground (arith, new_nodes-seen p seen rest, new_nodes-seen p (n ∷ seen) rest, eq_iff n p)

-- Whether the device of an allocation result needs the path.
abbrev pub wants : Inventory → String → AllocationResult → Bool
wants inv p a = elim (lookup_device inv a.device) [ none ↦ false | some d ↦ needs d p ]

-- The items have a path that was not seen exactly if a result of theirs wants it.
abbrev pub ItemsHave : Bool → Bool → String → Items → Type 0
ItemsHave seen wanted p (missing d) = Unit
ItemsHave seen wanted p (items is) = (among p (item_nodes is) || seen) ≡ (wanted || seen)

-- What is given of a device, and what the rest gives after it.
given-join :
    (given later seen_next seen needed wanted nodes : Bool)
    → (later || seen_next) ≡ (wanted || seen_next)
    → seen_next ≡ (nodes || seen)
    → (given || seen) ≡ (nodes || seen)
    → nodes ≡ needed
    → ((given || later) || seen) ≡ ((needed || wanted) || seen)
given-join given later seen_next seen needed wanted nodes h s g n = ground (arith, h, s, g, n)

add_item-have :
    (uid p : String) (a : AllocationResult) (d : ProbeDevice) (seen : List String) (wanted : Bool)
    (rest : Items)
    → ItemsHave (among p (new_nodes seen (edits_for d).device_nodes).1) wanted p rest
    → ItemsHave
        (among p seen)
        (needs d p || wanted)
        p
        (add_item (item_of uid a d (new_nodes seen (edits_for d).device_nodes).0) rest)
unfolding item_of
add_item-have uid p a d seen wanted (missing e) h = tt
add_item-have uid p a d seen wanted (items is) h =
    let ns = (edits_for d).device_nodes in
    ap (λ b. b || among p seen) (any-append (λ t. t == p) (new_nodes seen ns).0 (item_nodes is))
    ∙ given-join (among p (new_nodes seen ns).0) (among p (item_nodes is))
        (among p (new_nodes seen ns).1) (among p seen) (needs d p) wanted (among p ns) h
        (new_nodes-seen p seen ns) (new_nodes-given p seen ns) (edits_for-needs d p)

-- The wish of the first result, by what the loop finds.
abbrev first_wants : String → Bool → Option ProbeDevice → Bool → Bool
first_wants p true none w = w
first_wants p true (some d) w = needs d p || w
first_wants p false o w = w

any-wants :
    (inv : Inventory) (p : String) (a : AllocationResult) (own : List AllocationResult) (b : Bool)
    (o : Option ProbeDevice)
    → lookup_device inv a.device ≡ o
    → first_wants p b o (any (wants inv p) own) ≡ any (wants inv p) (if b then a ∷ own else own)
any-wants inv p a own true none e =
    ap (λ o. (elim o [ none ↦ false | some d ↦ needs d p ]) || any (wants inv p) own) (sym e)
any-wants inv p a own true (some d) e =
    ap (λ o. (elim o [ none ↦ false | some d ↦ needs d p ]) || any (wants inv p) own) (sym e)
any-wants inv p a own false o e = refl

chosen-have :
    (p : String) (wanted seen b : Bool) (o : Option ProbeDevice) (name : String)
    (f : ProbeDevice → Items) (t : Items)
    → ((d : ProbeDevice) → ItemsHave seen (needs d p || wanted) p (f d))
    → ItemsHave seen wanted p t
    → ItemsHave seen
        (first_wants p b o wanted)
        p
        (if b then (elim o [ none ↦ missing name | some dev ↦ f dev ]) else t)
chosen-have p wanted seen true none name f t h k = tt
chosen-have p wanted seen true (some d) name f t h k = h d
chosen-have p wanted seen false o name f t h k = k

pub collect-have :
    (inv : Inventory) (uid p : String) (seen : List String) (results : List AllocationResult)
    → ItemsHave
        (among p seen)
        (any (wants inv p) (own_results results))
        p
        (collect inv uid seen results)
unfolding collect
collect-have inv uid p seen [] = refl
collect-have inv uid p seen (a ∷ rest) =
    let own = own_results rest in
    let b = a.driver == driver_domain in
    let o = lookup_device inv a.device in
    subst (λ w. ItemsHave (among p seen) w p (collect inv uid seen (a ∷ rest)))
      (any-wants inv p a own b o refl)
      (chosen-have p (any (wants inv p) own) (among p seen) b o a.device _ _
        (λ d.
          add_item-have uid p a d seen _ _
            (collect-have inv uid p (new_nodes seen (edits_for d).device_nodes).1 rest))
        (collect-have inv uid p seen rest))
