-- ===== src/Observe/Gauges.antt =====
-- SetInventory and SetCapabilitySource of observe.go: what the series read.
use llmfit_dra.Prelude.{
  String, ℕ, ◌+◌, ◌≡◌, some, List, [], ◌∷◌, true, ◌==◌, if◌then◌else◌, arith, refl, eq_iff, length,
  any,
}
use llmfit_dra.Prelude.Maps.{GoMap, lookup, insert, lookup-insert}
use llmfit_dra.Agent.{DeviceInfo}
use llmfit_dra.Observe.{
  Labels, labels_of, bump, Inventories, count_devices, set_inventory_gauges, known_sources,
  mark_sources, SourceMetrics, set_capability_source,
}

-- The sum of a gauge's series.
abbrev pub sum_series : List (Labels × ℕ) → ℕ
sum_series [] = 0
sum_series ((k, n) ∷ rest) = n + sum_series rest

sum_series-bump :
    (key : Labels) (series : List (Labels × ℕ))
    → sum_series (bump key series) ≡ sum_series series + 1
unfolding bump
sum_series-bump key [] = omega arith
sum_series-bump key ((k, n) ∷ rest) = ground (arith, sum_series-bump key rest)

count_devices-sum :
    (devs : List DeviceInfo) (g : Inventories)
    → sum_series (count_devices devs g).devices ≡ sum_series g.devices + length devs
unfolding count_devices
count_devices-sum [] g = omega arith
count_devices-sum (d ∷ rest) g =
    omega (arith, count_devices-sum rest _, sum_series-bump (labels_of d) g.devices)

-- The series of the devices gauge add up to the number of published devices.
pub set_inventory_gauges-sum :
    (devs : List DeviceInfo) → sum_series (set_inventory_gauges devs).devices ≡ length devs
unfolding set_inventory_gauges
set_inventory_gauges-sum devs =
    omega (arith, count_devices-sum devs (record { devices = []; managed = [] }))

mark_sources-lookup :
    (src name : String) (sources : List String) (g : GoMap ℕ)
    → lookup name (mark_sources src sources g) ≡ (
        if any (λ s. s == name) sources then some (if name == src then 1 else 0) else lookup name g)
unfolding mark_sources
mark_sources-lookup src name [] g = refl
mark_sources-lookup src name (s ∷ rest) g = ground (
  arith,
  mark_sources-lookup src name rest (insert s (if s == src then 1 else 0) g),
  lookup-insert s name (if s == src then 1 else 0) g,
  eq_iff s name,
)

-- Each known source reads 1 if it is the active one, and else 0.
pub set_capability_source-lookup :
    (src name : String) (m : SourceMetrics)
    → any (λ s. s == name) known_sources ≡ true
    → lookup name (set_capability_source src m).source ≡ some (if name == src then 1 else 0)
unfolding set_capability_source
set_capability_source-lookup src name m known =
    ground (arith, mark_sources-lookup src name known_sources m.source)
