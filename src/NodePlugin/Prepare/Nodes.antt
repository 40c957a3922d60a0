-- ===== src/NodePlugin/Prepare/Nodes.antt =====
-- The device paths of a prepared claim, and what the kubelet is told of its results.
use Prim.Native.String.{◌++◌}
use mathlib.Core.List
use llmfit_dra.Prelude.{
  String, Option, none, some, List, [], ◌∷◌, Bool, true, false, not, ◌&&◌, ◌==◌, if◌then◌else◌, ◌≡◌,
  refl, ap, ◌∙◌, arith, select,
}
use llmfit_dra.Resource.{AllocationResult}
use llmfit_dra.ModelClaim.Backend.{driver_domain}
use llmfit_dra.Probe.{ProbeDevice}
use llmfit_dra.NodePlugin.Inventory.{Inventory, lookup_device}
use llmfit_dra.NodePlugin.Edits.{CdiDevice, qualified_name, edits_for}
use llmfit_dra.NodePlugin.Prepare.{
  PreparedDevice, among, new_nodes, Item, item_of, Items, missing, items, add_item, collect,
  cdi_devices, add_env,
}

-- No path twice, and none of those that were seen.
abbrev pub apart : List String → List String → Bool
apart seen [] = true
apart seen (x ∷ xs) = not (among x seen) && apart (x ∷ seen) xs

-- The paths of all devices of a file, in order.
abbrev pub nodes_of : List CdiDevice → List String
nodes_of [] = []
nodes_of (d ∷ rest) = List.◌++◌ d.edits.device_nodes (nodes_of rest)

abbrev pub item_nodes : List Item → List String
item_nodes [] = []
item_nodes (i ∷ rest) = List.◌++◌ i.cdi.edits.device_nodes (item_nodes rest)

new_nodes-apart :
    (seen ns ys : List String)
    → apart (new_nodes seen ns).1 ys ≡ true
    → apart seen (List.◌++◌ (new_nodes seen ns).0 ys) ≡ true
unfolding new_nodes
new_nodes-apart seen [] ys h = h
new_nodes-apart seen (n ∷ rest) ys h =
    ground (arith, new_nodes-apart seen rest ys, new_nodes-apart (n ∷ seen) rest ys)

abbrev pub items_apart : List String → Items → Bool
items_apart seen (missing d) = true
items_apart seen (items is) = apart seen (item_nodes is)

add_item-apart :
    (seen ns : List String) (i : Item) (rest : Items)
    → i.cdi.edits.device_nodes ≡ (new_nodes seen ns).0
    → items_apart (new_nodes seen ns).1 rest ≡ true
    → items_apart seen (add_item i rest) ≡ true
add_item-apart seen ns i (missing d) e h = refl
add_item-apart seen ns i (items is) e h =
    ap (λ l. apart seen (List.◌++◌ l (item_nodes is))) e ∙ new_nodes-apart seen ns (item_nodes is) h

chosen-apart :
    (seen : List String) (own : Bool) (o : Option ProbeDevice) (name : String)
    (f : ProbeDevice → Items) (t : Items)
    → ((d : ProbeDevice) → items_apart seen (f d) ≡ true)
    → items_apart seen t ≡ true
    → items_apart seen (if own then (elim o [ none ↦ missing name | some dev ↦ f dev ]) else t)
      ≡ true
chosen-apart seen true none name f t h k = refl
chosen-apart seen true (some d) name f t h k = h d
chosen-apart seen false o name f t h k = k

pub collect-apart :
    (inv : Inventory) (uid : String) (seen : List String) (results : List AllocationResult)
    → items_apart seen (collect inv uid seen results) ≡ true
unfolding collect item_of
collect-apart inv uid seen [] = refl
collect-apart inv uid seen (a ∷ rest) =
    chosen-apart seen (a.driver == driver_domain) (lookup_device inv a.device) a.device _ _
      (λ d.
        add_item-apart seen (edits_for d).device_nodes _ _ refl
          (collect-apart inv uid (new_nodes seen (edits_for d).device_nodes).1 rest))
      (collect-apart inv uid seen rest)

abbrev pub own_results : List AllocationResult → List AllocationResult
own_results = select (λ a. a.driver == driver_domain)

-- The name of the CDI device of an allocation result, and what the kubelet has to be told of it.
abbrev pub cdi_name : String → AllocationResult → String
cdi_name uid a = uid ++ "-" ++ a.device

abbrev pub told_for : String → AllocationResult → PreparedDevice
told_for uid a = record {
  requests = a.request ∷ [];
  pool_name = a.pool;
  device_name = a.device;
  cdi_device_ids = qualified_name (cdi_name uid a) ∷ [];
}

-- What the items tell of the results that they stand for, and the names of their devices.
abbrev pub ItemsTell : String → List AllocationResult → Items → Type 0
ItemsTell uid own (missing d) = Unit
ItemsTell uid own (items is) =
    (List.map (λ i. i.told) is ≡ List.map (told_for uid) own)
    × (List.map (λ i. i.cdi.name) is ≡ List.map (cdi_name uid) own)

add_item-tell :
    (uid : String) (a : AllocationResult) (d : ProbeDevice) (ns : List String)
    (own : List AllocationResult) (rest : Items)
    → ItemsTell uid own rest
    → ItemsTell uid (a ∷ own) (add_item (item_of uid a d ns) rest)
unfolding item_of
add_item-tell uid a d ns own (missing e) h = tt
add_item-tell uid a d ns own (items is) h =
    (ap (◌∷◌ (told_for uid a)) h.0, ap (◌∷◌ (cdi_name uid a)) h.1)

chosen-tell :
    (uid : String) (a : AllocationResult) (own : List AllocationResult) (b : Bool)
    (o : Option ProbeDevice) (name : String) (f : ProbeDevice → Items) (t : Items)
    → ((d : ProbeDevice) → ItemsTell uid (a ∷ own) (f d))
    → ItemsTell uid own t
    → ItemsTell uid
        (if b then a ∷ own else own)
        (if b then (elim o [ none ↦ missing name | some dev ↦ f dev ]) else t)
chosen-tell uid a own true none name f t h k = tt
chosen-tell uid a own true (some d) name f t h k = h d
chosen-tell uid a own false o name f t h k = k

pub collect-tell :
    (inv : Inventory) (uid : String) (seen : List String) (results : List AllocationResult)
    → ItemsTell uid (own_results results) (collect inv uid seen results)
unfolding collect
collect-tell inv uid seen [] = (refl, refl)
collect-tell inv uid seen (a ∷ rest) =
    chosen-tell uid a (own_results rest) (a.driver == driver_domain) (lookup_device inv a.device)
      a.device _ _
      (λ d.
        add_item-tell uid a d _ _ _
          (collect-tell inv uid (new_nodes seen (edits_for d).device_nodes).1 rest))
      (collect-tell inv uid seen rest)

visible-nodes :
    (v : String) (d : CdiDevice) (b : Bool)
    → (if b then add_env v d else d).edits.device_nodes ≡ d.edits.device_nodes
visible-nodes v d true = refl
visible-nodes v d false = refl

pub cdi_devices-nodes :
    (v : Option String) (is : List Item) → nodes_of (cdi_devices v is) ≡ item_nodes is
unfolding cdi_devices
cdi_devices-nodes v [] = refl
cdi_devices-nodes none (i ∷ is) =
    ap (List.◌++◌ i.cdi.edits.device_nodes) (cdi_devices-nodes none is)
cdi_devices-nodes (some v) (i ∷ is) =
    ap (λ l. List.◌++◌ l (nodes_of (cdi_devices (some v) is))) (visible-nodes v i.cdi i.is_amdgpu)
    ∙ ap (List.◌++◌ i.cdi.edits.device_nodes) (cdi_devices-nodes (some v) is)

visible-name :
    (v : String) (d : CdiDevice) (b : Bool) → (if b then add_env v d else d).name ≡ d.name
visible-name v d true = refl
visible-name v d false = refl

pub cdi_devices-names :
    (v : Option String) (is : List Item)
    → List.map (λ d. d.name) (cdi_devices v is) ≡ List.map (λ i. i.cdi.name) is
unfolding cdi_devices
cdi_devices-names v [] = refl
cdi_devices-names none (i ∷ is) = ap (◌∷◌ i.cdi.name) (cdi_devices-names none is)
cdi_devices-names (some v) (i ∷ is) =
    ap (λ n. n ∷ List.map (λ d. d.name) (cdi_devices (some v) is))
      (visible-name v i.cdi i.is_amdgpu)
    ∙ ap (◌∷◌ i.cdi.name) (cdi_devices-names (some v) is)
