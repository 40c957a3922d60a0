-- ===== src/NodePlugin/Edits.antt =====
-- `editsFor`, the container edits of one device, and the CDI types of cdi.go.
pub mod Nics
use Prim.Native.Char.{code}
use Prim.Native.String.{◌++◌, slice}
use mathlib.Core.List
use llmfit_dra.Prelude.{
  String, ℕ, ◌-◌, List, [], ◌∷◌, Bool, true, false, not, ◌&&◌, ◌==◌, if◌then◌else◌, leb, eqb,
}
use llmfit_dra.Probe.{ProbeDevice, Kind, kind_nic, kind_text, device_name}

-- A device node is its path.
pub record ContainerEdits : Type 0 where
  pub env : List String
  pub device_nodes : List String

pub record CdiDevice : Type 0 where
  pub name : String
  pub edits : ContainerEdits

unfoldable pub qualified_name : String → String
qualified_name device = "llmfit.ai/device" ++ "=" ++ device

abbrev letters : String
letters = "ABCDEFGHIJKLMNOPQRSTUVWXYZ"

-- `strings.ToUpper` of an ASCII name whose dashes are underscores.
unfoldable pub env_name : String → String
env_name String.[] = ""
env_name (String.◌∷◌ c s) =
    let rest = env_name s in
    if eqb (code c) b'-'
    then "_" ++ rest
    else if leb b'a' (code c) && leb (code c) b'z'
    then slice letters (code c - 97) (code c - 96) ++ rest
    else String.◌∷◌ c rest

-- The value of the per-device variable.
unfoldable pub per_device : ProbeDevice → String
per_device d =
    if d.render_node == ""
    then (if d.dev_node == "" then kind_text d.kind else d.dev_node)
    else d.render_node

unfoldable pub keep_if : Bool → List String → List String
keep_if b xs = if b then xs else []

abbrev pub is_nic : Kind → Bool
is_nic kind_nic = true
is_nic _ = false

-- `editsFor`
unfoldable pub edits_for : ProbeDevice → ContainerEdits
unfolding keep_if
edits_for d = record {
  env =
      List.◌++◌
        (("LLMFIT_DEVICE=" ++ device_name d)
          ∷ ("LLMFIT_DEVICE_KIND=" ++ kind_text d.kind)
          ∷ ("LLMFIT_DEVICE_" ++ env_name (device_name d) ++ "=" ++ per_device d)
          ∷ [])
        (List.◌++◌
          (keep_if (not (d.render_node == "")) (("LLMFIT_RENDER_NODE=" ++ d.render_node) ∷ []))
          (keep_if (is_nic d.kind && not (d.dev_node == "") && not (d.net_dev == ""))
            (("LLMFIT_NETDEV=" ++ d.net_dev) ∷ [])));
  device_nodes = List.◌++◌ (keep_if (not (d.render_node == "")) (d.render_node ∷ [])) (
      List.◌++◌ (keep_if (not (d.dev_node == "")) (d.dev_node ∷ [])) (
        List.◌++◌ (keep_if (d.driver == "amdgpu") ("/dev/kfd" ∷ []))
          (keep_if (is_nic d.kind && not (d.dev_node == "")) ("/dev/infiniband/rdma_cm" ∷ []))));
}
