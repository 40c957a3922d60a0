-- ===== src/NodePlugin/Prepare.antt =====
-- `prepareClaim`: one CDI device for each of the driver's results, and what the kubelet is told.
pub mod Nodes
pub mod Paths
pub mod Outcome
use Prim.Native.String.{◌++◌}
use llmfit_dra.Prelude.{
  String, ℕ, Option, none, some, List, [], ◌∷◌, Bool, true, false, ◌&&◌, ◌||◌, ◌==◌, if◌then◌else◌,
  leb, any, all, not,
}
use mathlib.Core.List
use llmfit_dra.Prelude.Maps.{GoMap, insert}
use llmfit_dra.Prelude.Text.{join_with}
use llmfit_dra.Resource.{ResourceClaim, AllocationResult}
use llmfit_dra.ModelClaim.Backend.{driver_domain}
use llmfit_dra.Probe.{ProbeDevice}
use llmfit_dra.NodePlugin.Inventory.{Inventory, lookup_device, driver_count}
use llmfit_dra.NodePlugin.Edits.{ContainerEdits, CdiDevice, qualified_name, edits_for}

-- What the kubelet gets for one device.
pub record PreparedDevice : Type 0 where
  pub requests : List String
  pub pool_name : String
  pub device_name : String
  pub cdi_device_ids : List String

-- The error of a claim, by the reason label of the metrics.
pub data PrepareError : Type 0 where
  no_allocation : PrepareError
  device_missing : String → PrepareError
  foreign_only : PrepareError
  cdi_write : String → PrepareError

pub data PrepareResult : Type 0 where
  prepared : List PreparedDevice → PrepareResult
  prepare_failed : PrepareError → PrepareResult

abbrev pub among : String → List String → Bool
among s = any (λ t. t == s)

-- The loop over the nodes of one device: those that the claim has not seen, and all that it has.
unfoldable pub new_nodes : List String → List String → List String × List String
new_nodes seen [] = ([], seen)
new_nodes seen (n ∷ rest) =
    if among n seen
    then new_nodes seen rest
    else ((n ∷ (new_nodes (n ∷ seen) rest).0), (new_nodes (n ∷ seen) rest).1)

-- One device of the claim. `is_amdgpu` and `unique_id` stand for the indices and the identifiers
-- that the loop collects beside it.
pub record Item : Type 0 where
  pub told : PreparedDevice
  pub cdi : CdiDevice
  pub is_amdgpu : Bool
  pub unique_id : String

unfoldable pub item_of : String → AllocationResult → ProbeDevice → List String → Item
item_of uid alloc dev nodes =
    let name = uid ++ "-" ++ alloc.device in
    record {
      told = record {
        requests = alloc.request ∷ [];
        pool_name = alloc.pool;
        device_name = alloc.device;
        cdi_device_ids = qualified_name name ∷ [];
      };
      cdi = record {
        name = name;
        edits = record { env = (edits_for dev).env; device_nodes = nodes };
      };
      is_amdgpu = dev.driver == "amdgpu";
      unique_id = dev.unique_id;
    }

-- The items, or the name of a device that the inventory does not have.
pub data Items : Type 0 where
  missing : String → Items
  items : List Item → Items

abbrev pub add_item : Item → Items → Items
add_item i (missing d) = missing d
add_item i (items is) = items (i ∷ is)

-- The loop over the allocation results. An early return leaves out what comes after it.
unfoldable pub collect : Inventory → String → List String → List AllocationResult → Items
collect inv uid seen [] = items []
collect inv uid seen (alloc ∷ rest) =
    if alloc.driver == driver_domain
    then (elim (lookup_device inv alloc.device) [
      | none ↦ missing alloc.device
      | some dev ↦
          add_item (item_of uid alloc dev (new_nodes seen (edits_for dev).device_nodes).0)
            (collect inv uid (new_nodes seen (edits_for dev).device_nodes).1 rest)
    ])
    else collect inv uid seen rest

-- `addROCmVisibility`: the identifiers of the claim's own amdgpu devices, and the variable.
unfoldable pub rocm_ids : List Item → List String
rocm_ids [] = []
rocm_ids (i ∷ rest) = let ids = rocm_ids rest in if i.is_amdgpu then i.unique_id ∷ ids else ids

abbrev pub add_env : String → CdiDevice → CdiDevice
add_env v d = record {
  name = d.name;
  edits = record { env = List.◌++◌ d.edits.env (v ∷ []); device_nodes = d.edits.device_nodes };
}

unfoldable pub cdi_devices : Option String → List Item → List CdiDevice
cdi_devices visible [] = []
cdi_devices visible (i ∷ rest) =
    (elim visible [ none ↦ i.cdi | some v ↦ if i.is_amdgpu then add_env v i.cdi else i.cdi ])
    ∷ cdi_devices visible rest

-- `none` is an early return of `addROCmVisibility`.
unfoldable pub rocm_visibility : Inventory → List String → Option String
rocm_visibility inv [] = none
rocm_visibility inv (id ∷ ids) =
    if leb (driver_count inv "amdgpu") 1 || among "" (id ∷ ids)
    then none
    else some ("ROCR_VISIBLE_DEVICES=GPU-" ++ join_with ",GPU-" (id ∷ ids))

-- The spec directory, from the uid of a claim to the devices of its file.
abbrev pub SpecDir : Type 0
SpecDir = GoMap (List CdiDevice)

-- `writeSpec`; its answer `none` is success. The file appears under its name by the last rename only.
unfoldable pub write_spec :
    Option String → SpecDir → String → List CdiDevice → Option String × SpecDir
write_spec (some e) dir uid devices = (some e, dir)
write_spec none dir uid devices = (none, insert uid devices dir)

unfoldable pub after_write : List Item → Option String × SpecDir → PrepareResult × SpecDir
after_write is (some e, dir) = (prepare_failed (cdi_write e), dir)
after_write is (none, dir) = (prepared (List.map (λ i. i.told) is), dir)

-- `prepareClaim`, from the collected devices on.
unfoldable pub finish_prepare :
    Inventory → Option String → SpecDir → String → Items → PrepareResult × SpecDir
unfolding after_write
finish_prepare inv answer dir uid (missing d) = (prepare_failed (device_missing d), dir)
finish_prepare inv answer dir uid (items []) = (prepare_failed foreign_only, dir)
finish_prepare inv answer dir uid (items (i ∷ is)) =
    after_write (i ∷ is)
      (write_spec answer dir uid (cdi_devices (rocm_visibility inv (rocm_ids (i ∷ is))) (i ∷ is)))

unfoldable pub prepare_results :
    Inventory
    → Option String
    → SpecDir
    → String
    → Option (List AllocationResult)
    → PrepareResult × SpecDir
prepare_results inv answer dir uid none = (prepare_failed no_allocation, dir)
prepare_results inv answer dir uid (some results) =
    finish_prepare inv answer dir uid (collect inv uid [] results)

unfoldable pub prepare_claim :
    Inventory → Option String → SpecDir → ResourceClaim → PrepareResult × SpecDir
unfolding prepare_results
prepare_claim inv answer dir claim = prepare_results inv answer dir claim.uid claim.allocation

-- `PrepareResourceClaims`, after the results so far: a failing claim does not stop the others.
unfoldable pub prepare_claims :
    Inventory
    → (String → Option String)
    → GoMap PrepareResult
    → SpecDir
    → List ResourceClaim
    → GoMap PrepareResult × SpecDir
prepare_claims inv answers results dir [] = (results, dir)
prepare_claims inv answers results dir (claim ∷ rest) =
    let r = prepare_claim inv (answers claim.uid) dir claim in
    prepare_claims inv answers (insert claim.uid r.0 results) r.1 rest
