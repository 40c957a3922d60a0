-- ===== src/Agent.antt =====
-- cmd/llmfit-dra/main.go, the agent of a node: what one cycle of the loop reads and changes. The
-- answers of the API server, of the walk of sysfs and of llmfit are the cycle's input.
pub mod Cycles
pub mod Lockstep
pub mod Prepares
pub mod Run
use llmfit_dra.Prelude.{
  String, ℕ, ◌-◌, Option, none, some, List, [], ◌∷◌, Bool, true, false, not, ◌&&◌, ◌||◌, ◌==◌,
  if◌then◌else◌, ltb, leb,
}
use llmfit_dra.Prelude.Maps.{GoMap}
use llmfit_dra.Resource.{Device, ResourceSlice, string_at, bool_at}
use llmfit_dra.Index.{Index}
use llmfit_dra.Llmfit.{FloatOps, System}
use llmfit_dra.Llmfit.Detector.{Detector, new_detector, TransportReply, answer, failure, detect}
use llmfit_dra.Probe.{ProbeDevice}
use llmfit_dra.NodePlugin.Inventory.{Inventory, set_inventory}
use llmfit_dra.Publisher.Build.{Sources, Options, build_devices}
use llmfit_dra.Publisher.Coexist.{vendor_gpus_present}

-- What does not change while the agent runs. `same_devices` is `DevicesDeepEqual` of the
-- resourceslice library.
pub record Config (F : Type 0) : Type 0 where
  pub ops : FloatOps F
  pub idx : Index
  pub node_name : String
  pub vendor_drivers : GoMap Bool
  pub taints : Bool
  pub max_stale : ℕ
  pub same_devices : List Device → List Device → Bool

-- What one cycle is told: the node's slices, the walk, the size of the memory, the times at which
-- llmfit answers and the cycle ends, and llmfit's transports. `none` is an error, for a transport
-- that it is not configured.
pub record World (F : Type 0) : Type 0 where
  pub slices : Option (List ResourceSlice)
  pub walk : Option (List ProbeDevice)
  pub mem_total : Option ℕ
  pub now : ℕ
  pub finished : ℕ
  pub api : Option (TransportReply F)
  pub exec : Option (TransportReply F)

-- The pools of `DriverResources`, each with the devices of its slices.
abbrev pub DriverResources : Type 0
DriverResources = GoMap (List (List Device))

-- `BuildResources`
unfoldable pub build_resources : String → List Device → DriverResources
build_resources node_name devices = (node_name, devices ∷ []) ∷ []

-- The variables of `run` that the cycles change. `resources` is what the resourceslice controller
-- was last given, `source` the gauge of the capability source.
pub record Agent (F : Type 0) : Type 0 where
  pub detector : Detector F
  pub inventory : Inventory
  pub vendor_managed : Bool
  pub prev_foreign : List String
  pub prev : List Device
  pub resources : DriverResources
  pub source : String
  pub last_beat : ℕ

abbrev pub first_agent : {F : Type 0} → Agent F
first_agent = record {
  detector = new_detector;
  inventory = [];
  vendor_managed = false;
  prev_foreign = [];
  prev = [];
  resources = [];
  source = "";
  last_beat = 0;
}

-- The guards of `run`; `interval` is in nanoseconds.
unfoldable pub accepts_flags : String → ℕ → Bool
accepts_flags node_name interval = not (node_name == "") && not (ltb interval 1000000000)

module _ {F : Type 0} (cfg : Config F) where
  -- `refreshOpts`: an error keeps the state.
  unfoldable pub take_survey : Option (Bool × List String) → Agent F → Agent F
  take_survey none a = a
  take_survey (some (present, foreign)) a = record a {
    vendor_managed = present;
    prev_foreign = foreign;
  }

  unfoldable pub refresh_opts : Option (List ResourceSlice) → Agent F → Agent F
  unfolding take_survey
  refresh_opts slices a = take_survey (vendor_gpus_present cfg.vendor_drivers slices) a

  abbrev reported : TransportReply F → Option (System F)
  reported (answer sys) = some sys
  reported (failure e) = none

  abbrev source_of : TransportReply F → String → String
  source_of (answer sys) transport = transport
  source_of (failure e) transport = "index"

  -- `desiredState` from the size of the memory on.
  unfoldable pub assess_node : ℕ → List ProbeDevice → World F → Agent F → Agent F × List Device
  assess_node ram probed w a =
      let (detector, reply) = detect cfg.ops cfg.max_stale w.now w.api w.exec a.detector in
      (
        record a { detector = detector; source = source_of reply detector.transport },
        build_devices cfg.ops probed (record {
          idx = cfg.idx;
          system_ram = ram;
          sys = reported reply;
          opts = record { taints = cfg.taints; vendor_managed_gpus = a.vendor_managed };
        }),
      )

  -- `desiredState` from the walk on; `none` is its error.
  unfoldable pub after_walk :
      Option (List ProbeDevice) → Option ℕ → World F → Agent F → Agent F × Option (List Device)
  unfolding assess_node
  after_walk none mem w a = (a, none)
  after_walk (some probed) none w a = (record a { inventory = set_inventory probed }, none)
  after_walk (some probed) (some ram) w a =
      let (told, devices) =
        assess_node ram probed w (record a { inventory = set_inventory probed }) in
      (told, some devices)

  unfoldable pub desired_state : World F → Agent F → Agent F × Option (List Device)
  unfolding after_walk
  desired_state w a = after_walk w.walk w.mem_total w a

  -- The rest of a turn of the loop.
  unfoldable pub finish_cycle : ℕ → Agent F × Option (List Device) → Agent F
  finish_cycle finished (a, none) = a
  finish_cycle finished (a, some devices) = record a {
    prev = if cfg.same_devices a.prev devices then a.prev else devices;
    resources = build_resources cfg.node_name devices;
    last_beat = finished;
  }

  -- One turn of the loop.
  unfoldable pub cycle : World F → Agent F → Agent F
  unfolding refresh_opts desired_state finish_cycle build_resources
  cycle w a = finish_cycle w.finished (desired_state w (refresh_opts w.slices a))

  -- The start: an error ends the program.
  unfoldable pub begin : ℕ → Agent F × Option (List Device) → Option (Agent F)
  begin finished (a, none) = none
  begin finished (a, some devices) = some (record a {
    prev = devices;
    resources = build_resources cfg.node_name devices;
    last_beat = finished;
  })

  unfoldable pub start_agent : World F → Option (Agent F)
  unfolding refresh_opts desired_state begin build_resources
  start_agent w = begin w.finished (desired_state w (refresh_opts w.slices first_agent))

-- `Health.live`
unfoldable pub live : ℕ → ℕ → ℕ → Bool
live max_stale now last_beat = leb (now - last_beat) max_stale

-- `attrStr` and `attrBool`
unfoldable pub attr_str : Device → String → String
attr_str d key = elim (string_at d.attributes key) [ none ↦ "" | some s ↦ s ]

unfoldable pub attr_bool : Device → String → Bool
attr_bool d key = elim (bool_at d.attributes key) [ none ↦ false | some b ↦ b ]

pub record DeviceInfo : Type 0 where
  pub kind : String
  pub vendor : String
  pub driver : String
  pub healthy : Bool
  pub vendor_managed : Bool

-- `deviceInfos`
unfoldable pub device_infos : List Device → List DeviceInfo
unfolding attr_str attr_bool
device_infos [] = []
device_infos (d ∷ rest) =
    record {
      kind = attr_str d "kind";
      vendor = attr_str d "vendor";
      driver = attr_str d "driver";
      healthy = attr_bool d "healthy";
      vendor_managed = attr_bool d "vendorManaged";
    }
    ∷ device_infos rest
