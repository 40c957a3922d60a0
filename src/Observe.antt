-- ===== src/Observe.antt =====
-- internal/observe: the gauges of the inventory and of the capability source. A gauge vector is a
-- list of its series. Counters has the other series, Health what the HTTP endpoints answer.
pub mod Gauges
pub mod Counters
pub mod Health
pub mod Heartbeat
use llmfit_dra.Prelude.{
  String, ℕ, ◌+◌, List, [], ◌∷◌, Bool, true, false, ◌&&◌, ◌||◌, ◌==◌, if◌then◌else◌,
}
use llmfit_dra.Prelude.Maps.{GoMap, insert}
use llmfit_dra.Agent.{DeviceInfo}

abbrev same_bool : Bool → Bool → Bool
same_bool true b = b
same_bool false true = false
same_bool false false = true

-- The labels of the `devices` gauge.
pub record Labels : Type 0 where
  pub kind : String
  pub vendor : String
  pub driver : String
  pub healthy : Bool

abbrev pub labels_of : DeviceInfo → Labels
labels_of d = record { kind = d.kind; vendor = d.vendor; driver = d.driver; healthy = d.healthy }

unfoldable pub same_labels : Labels → Labels → Bool
same_labels a b =
    a.kind == b.kind
    && a.vendor == b.vendor
    && a.driver == b.driver
    && same_bool a.healthy b.healthy

-- `counts[key]++`
unfoldable pub bump : Labels → List (Labels × ℕ) → List (Labels × ℕ)
bump key [] = (key, 1) ∷ []
bump key ((k, n) ∷ rest) =
    let later = bump key rest in if same_labels k key then (k, n + 1) ∷ rest else (k, n) ∷ later

abbrev pub managed_key : DeviceInfo → String × String
managed_key d = (d.kind, d.driver)

unfoldable pub bump_managed :
    String × String → List ((String × String) × ℕ) → List ((String × String) × ℕ)
bump_managed key [] = (key, 1) ∷ []
bump_managed (kind, driver) (((k, d), n) ∷ rest) =
    let later = bump_managed (kind, driver) rest in
    if k == kind && d == driver then ((k, d), n + 1) ∷ rest else ((k, d), n) ∷ later

-- The two gauges of the inventory.
pub record Inventories : Type 0 where
  pub devices : List (Labels × ℕ)
  pub managed : List ((String × String) × ℕ)

-- The loop of `SetInventory`.
unfoldable pub count_devices : List DeviceInfo → Inventories → Inventories
unfolding bump bump_managed
count_devices [] g = g
count_devices (d ∷ rest) g = count_devices rest (record {
  devices = bump (labels_of d) g.devices;
  managed = if d.vendor_managed then bump_managed (managed_key d) g.managed else g.managed;
})

-- `SetInventory`: the old series are gone.
unfoldable pub set_inventory_gauges : List DeviceInfo → Inventories
unfolding count_devices
set_inventory_gauges devs = count_devices devs (record { devices = []; managed = [] })

abbrev pub known_sources : List String
known_sources = "api" ∷ "exec" ∷ "cache" ∷ "index" ∷ "none" ∷ []

pub record SourceMetrics : Type 0 where
  pub source : GoMap ℕ
  pub degraded_cycles : ℕ

-- The loop of `SetCapabilitySource` over the known sources.
unfoldable pub mark_sources : String → List String → GoMap ℕ → GoMap ℕ
mark_sources src [] g = g
mark_sources src (s ∷ rest) g = mark_sources src rest (insert s (if s == src then 1 else 0) g)

-- `SetCapabilitySource`
unfoldable pub set_capability_source : String → SourceMetrics → SourceMetrics
unfolding mark_sources
set_capability_source src m = record {
  source = mark_sources src known_sources m.source;
  degraded_cycles =
      if src == "exec" || src == "cache" || src == "index"
      then m.degraded_cycles + 1
      else m.degraded_cycles;
}
