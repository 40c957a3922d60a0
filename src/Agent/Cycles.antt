-- ===== src/Agent/Cycles.antt =====
-- The loop of main.go: what a cycle publishes, and what a failed one keeps.
use llmfit_dra.Prelude.{
  String, ℕ, ◌≡◌, ◌≢◌, Option, none, some, List, [], ◌∷◌, Bool, true, false, ◌&&◌, arith, eq_refl,
  refl, sym, subst, ◌∙◌, is_some, All, any,
}
use llmfit_dra.Prelude.Maps.{GoMap, lookup}
use llmfit_dra.Resource.{Device, ResourceSlice}
use llmfit_dra.Probe.{ProbeDevice}
use llmfit_dra.NodePlugin.Inventory.{Inventory, set_inventory}
use llmfit_dra.ModelClaim.Backend.{gpu_class}
use llmfit_dra.ModelClaim.Satisfiable.Assess.{standing, eligible}
use llmfit_dra.Publisher.Build.{Sources, build_devices}
use llmfit_dra.Publisher.Names.{build_devices-All}
use llmfit_dra.Publisher.Fitness.{published-standing}
use llmfit_dra.Publisher.Coexist.{vendor_gpus_present, vendor_gpus_present-IsSurvey, by_vendor}
use llmfit_dra.Publisher.Match.{probed_gpus}
use llmfit_dra.Agent.{
  Config, World, Agent, DriverResources, build_resources, take_survey, refresh_opts, assess_node,
  after_walk, desired_state, finish_cycle, cycle,
}

abbrev first_slice : List (List Device) → List Device
first_slice [] = []
first_slice (s ∷ rest) = s

-- The devices that are published for a node.
unfoldable pub pool_devices : String → DriverResources → List Device
pool_devices node r = elim (lookup node r) [ none ↦ [] | some slices ↦ first_slice slices ]

abbrev pub succeeds : {F : Type 0} → World F → Bool
succeeds w = is_some w.walk && is_some w.mem_total

module _ {F : Type 0} (cfg : Config F) where
  -- What a cycle that fails keeps: everything but the inventory and the vendor drivers seen.
  pub record IsKept (a b : Agent F) : Type 0 where
    pub resources : b.resources ≡ a.resources
    pub prev : b.prev ≡ a.prev
    pub last_beat : b.last_beat ≡ a.last_beat
    pub detector : b.detector ≡ a.detector
    pub source : b.source ≡ a.source

  noticed-IsKept :
      (a : Agent F) (inv : Inventory) (present : Bool) (foreign : List String)
      → IsKept a (record a { inventory = inv; vendor_managed = present; prev_foreign = foreign })
  noticed-IsKept a inv present foreign = record {
    resources = refl;
    prev = refl;
    last_beat = refl;
    detector = refl;
    source = refl;
  }

  failed-IsKept :
      (r : Option (Bool × List String)) (walk : Option (List ProbeDevice)) (mem : Option ℕ)
      (w : World F) (a : Agent F)
      → (is_some walk && is_some mem) ≡ false
      → IsKept a (finish_cycle cfg w.finished (after_walk cfg walk mem w (take_survey cfg r a)))
  unfolding take_survey after_walk finish_cycle
  failed-IsKept none none mem w a h = noticed-IsKept a a.inventory a.vendor_managed a.prev_foreign
  failed-IsKept none (some probed) none w a h =
      noticed-IsKept a (set_inventory probed) a.vendor_managed a.prev_foreign
  failed-IsKept (some r) none mem w a h = noticed-IsKept a a.inventory r.0 r.1
  failed-IsKept (some r) (some probed) none w a h = noticed-IsKept a (set_inventory probed) r.0 r.1
  failed-IsKept r (some probed) (some ram) w a h = absurd (ground arith)

  -- A cycle whose walk or memory reading fails keeps what is published, the last heartbeat and the
  -- llmfit report.
  pub cycle-IsKept : (w : World F) (a : Agent F) → succeeds w ≡ false → IsKept a (cycle cfg w a)
  unfolding cycle desired_state refresh_opts
  cycle-IsKept w a h =
      failed-IsKept (vendor_gpus_present cfg.vendor_drivers w.slices) w.walk w.mem_total w a h

  pub lookup-resources :
      (devices : List Device)
      → pool_devices cfg.node_name (build_resources cfg.node_name devices) ≡ devices
  unfolding pool_devices build_resources lookup
  lookup-resources devices = ground (arith, eq_refl cfg.node_name)

  walked-All :
      (P : Device → Type 0) (walk : Option (List ProbeDevice)) (mem : Option ℕ) (w : World F)
      (a : Agent F)
      → (is_some walk && is_some mem) ≡ true
      → ((probed : List ProbeDevice) (src : Sources F)
          → src.opts.vendor_managed_gpus ≡ a.vendor_managed
          → All P (build_devices cfg.ops probed src))
      → All P (
          pool_devices cfg.node_name
            (finish_cycle cfg w.finished (after_walk cfg walk mem w a)).resources)
  unfolding after_walk finish_cycle assess_node
  walked-All P none mem w a h every = absurd (ground arith)
  walked-All P (some probed) none w a h every = absurd (ground arith)
  walked-All P (some probed) (some ram) w a h every = rw (lookup-resources _) (every probed _ refl)

  surveyed :
      (v : String × Bool) (vendors : GoMap Bool) (slices : List ResourceSlice) (a : Agent F)
      → any (by_vendor (v ∷ vendors)) slices ≡ true
      → (take_survey cfg (vendor_gpus_present (v ∷ vendors) (some slices)) a).vendor_managed ≡ true
  unfolding take_survey
  surveyed v vendors slices a h =
      let (r, answered, survey) = vendor_gpus_present-IsSurvey v vendors slices in
      subst (λ o. (take_survey cfg o a).vendor_managed ≡ true) (sym answered) (survey.present ∙ h)

  demoted :
      (src : Sources F) (probed : List ProbeDevice)
      → src.opts.vendor_managed_gpus ≡ true
      → All (λ dev. standing gpu_class dev ≢ eligible) (build_devices cfg.ops probed src)
  demoted src probed h =
      build_devices-All cfg.ops src _ probed
        (λ d same. ground (arith, (published-standing cfg.ops src (probed_gpus probed) d).0, same))

  -- After a successful cycle that found a slice of a configured vendor driver on the node, no
  -- published device is eligible in the class of llmfit GPUs.
  pub cycle-demotes :
      (v : String × Bool) (vendors : GoMap Bool) (slices : List ResourceSlice) (w : World F)
      (a : Agent F)
      → cfg.vendor_drivers ≡ v ∷ vendors
      → w.slices ≡ some slices
      → any (by_vendor (v ∷ vendors)) slices ≡ true
      → succeeds w ≡ true
      → All
          (λ dev. standing gpu_class dev ≢ eligible)
          (pool_devices cfg.node_name (cycle cfg w a).resources)
  unfolding cycle desired_state
  cycle-demotes v vendors slices w a hv hs found ok =
      walked-All _ w.walk w.mem_total w (refresh_opts cfg w.slices a) ok
        (λ probed src h. demoted src probed (h ∙ refreshed))
    where
      refreshed : (refresh_opts cfg w.slices a).vendor_managed ≡ true
      refreshed = rw (hv, hs) (surveyed v vendors slices a found)
