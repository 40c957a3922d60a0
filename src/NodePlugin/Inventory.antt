-- ===== src/NodePlugin/Inventory.antt =====
-- The probe snapshot that prepare reads. The lock is not modelled: a reader sees one whole snapshot.
use llmfit_dra.Prelude.{String, ℕ, ◌+◌, Option, List, [], ◌∷◌, ◌==◌, if◌then◌else◌}
use llmfit_dra.Prelude.Maps.{GoMap, lookup, insert}
use llmfit_dra.Probe.{ProbeDevice, device_name}

abbrev pub Inventory : Type 0
Inventory = GoMap ProbeDevice

-- The loop of `Set`: a later device of the same name replaces an earlier one.
unfoldable pub add_probed : List ProbeDevice → Inventory → Inventory
add_probed [] inv = inv
add_probed (d ∷ rest) inv = add_probed rest (insert (device_name d) d inv)

unfoldable pub set_inventory : List ProbeDevice → Inventory
unfolding add_probed
set_inventory devices = add_probed devices []

unfoldable pub lookup_device : Inventory → String → Option ProbeDevice
lookup_device inv name = lookup name inv

unfoldable pub driver_count : Inventory → String → ℕ
driver_count [] driver = 0
driver_count ((name, d) ∷ rest) driver =
    let n = driver_count rest driver in if d.driver == driver then n + 1 else n
