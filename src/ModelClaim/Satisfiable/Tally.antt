-- ===== src/ModelClaim/Satisfiable/Tally.antt =====
-- The counters that both slice loops keep, and what they do with a device that meets the bounds.
pub mod Matching
use Prim.Native.String.{◌++◌}
use llmfit_dra.Prelude.{
  String, ℕ, ◌+◌, Option, none, some, [], Bool, true, ◌==◌, if◌then◌else◌, length,
}
use llmfit_dra.Prelude.Maps.{GoMap, lookup, insert}
use llmfit_dra.Resource.{ResourceSlice, Device}

-- `nodes` is the map that is used as a set.
pub record Tally : Type 0 where
  pub devices : ℕ
  pub nodes : GoMap Bool
  pub available : ℕ
  pub held_by : String

abbrev pub no_devices : Tally
no_devices = record { devices = 0; nodes = []; available = 0; held_by = "" }

-- `node`, "" without a node name.
unfoldable pub node_of : ResourceSlice → String
node_of slice = elim slice.node_name [ none ↦ "" | some n ↦ n ]

abbrev pub device_key : ResourceSlice → Device → String
device_key slice dev = slice.pool_name ++ "/" ++ dev.name

unfoldable pub count_node : String → GoMap Bool → GoMap Bool
count_node node nodes = if node == "" then nodes else insert node true nodes

-- An available device, or one that a claim holds; the first holder is kept.
unfoldable pub count_holder : Option String → Tally → Tally
count_holder none t = record t { available = t.available + 1 }
count_holder (some holder) t = record t { held_by = if t.held_by == "" then holder else t.held_by }

-- The branch of both loops for a device that meets the bounds.
unfoldable pub count_fit : GoMap String → ResourceSlice → Device → Tally → Tally
unfolding node_of count_node count_holder
count_fit allocated slice dev t =
    count_holder (lookup (device_key slice dev) allocated)
      (record t { devices = t.devices + 1; nodes = count_node (node_of slice) t.nodes })

-- `Candidates`
pub record Candidates : Type 0 where
  pub devices : ℕ
  pub nodes : ℕ
  pub available : ℕ
  pub held_by : String
  pub shortfall : String

abbrev pub candidates_of : Tally → String → Candidates
candidates_of t shortfall = record {
  devices = t.devices;
  nodes = length t.nodes;
  available = t.available;
  held_by = t.held_by;
  shortfall = shortfall;
}
