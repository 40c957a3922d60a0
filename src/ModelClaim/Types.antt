-- ===== src/ModelClaim/Types.antt =====
-- The ModelClaim of api/v1alpha1/modelclaim_types.go, and the ResourceClaimTemplate that is made of
-- it, with the fields that the controller reads or writes.
use llmfit_dra.Prelude.{String, ℕ, Option, List}
use llmfit_dra.Prelude.Maps.{GoMap}
use llmfit_dra.Prelude.Int64.{ℤ}

-- `min_tps` is kept as the text that FormatFloat gives it: the program only passes it on.
pub record ModelClaimSpec : Type 0 where
  pub model : String
  pub min_tps : Option String
  pub quant : String
  pub efficiency_pct : Option ℤ
  pub device_class_name : String
  pub target_driver : String
  pub min_compute_tflops : Option ℤ
  pub extra_selectors : List String

pub data ConditionStatus : Type 0 where
  condition_true condition_false condition_unknown : ConditionStatus

-- `lastTransitionTime` is left to the library that writes it.
pub record Condition : Type 0 where
  pub kind : String
  pub status : ConditionStatus
  pub reason : String
  pub message : String
  pub observed_generation : ℤ

pub record ResolvedPhysics : Type 0 where
  pub memory_gi : ℤ
  pub min_bandwidth_gbs : ℤ
  pub quant : String
  pub weights_gb : String
  pub resolver_version : String

pub record CandidateCounts : Type 0 where
  pub devices : ℕ
  pub nodes : ℕ
  pub available : ℕ

pub record ModelClaimStatus : Type 0 where
  pub observed_generation : ℤ
  pub resolved : Option ResolvedPhysics
  pub template_ref : Option String
  pub candidates : Option CandidateCounts
  pub conditions : List Condition

pub record ModelClaim : Type 0 where
  pub namespace : String
  pub name : String
  pub uid : String
  pub generation : ℤ
  pub spec : ModelClaimSpec
  pub status : ModelClaimStatus

-- A selector's `cel` is a pointer, and so is a request's `exactly`. `others` has the fields that
-- BuildTemplate does not set (the allocation mode, the count, the tolerations and so on) as their
-- encoding, which is empty where none is set.
pub record ExactRequest : Type 0 where
  pub device_class_name : String
  pub selectors : List (Option String)
  pub others : String

-- `first_available` has the encodings of the alternatives.
pub record DeviceRequest : Type 0 where
  pub name : String
  pub exactly : Option ExactRequest
  pub first_available : List String

-- The controlling owner reference, as BuildTemplate writes it.
pub record OwnerReference : Type 0 where
  pub api_version : String
  pub kind : String
  pub name : String
  pub uid : String

-- `claim_config` is the encoding of the constraints and the configuration of the device claim, which
-- BuildTemplate does not set.
pub record Template : Type 0 where
  pub name : String
  pub namespace : String
  pub labels : GoMap String
  pub annotations : GoMap String
  pub owners : List OwnerReference
  pub requests : List DeviceRequest
  pub claim_config : String

abbrev pub condition_resolved : String
condition_resolved = "Resolved"

abbrev pub condition_satisfiable : String
condition_satisfiable = "Satisfiable"

abbrev pub reason_resolved : String
reason_resolved = "Resolved"

abbrev pub reason_invalid_model : String
reason_invalid_model = "InvalidModel"

abbrev pub reason_resolve_failed : String
reason_resolve_failed = "ResolveFailed"

abbrev pub reason_template_conflict : String
reason_template_conflict = "TemplateConflict"

abbrev pub reason_devices_available : String
reason_devices_available = "DevicesAvailable"

abbrev pub reason_all_devices_held : String
reason_all_devices_held = "AllDevicesHeld"

abbrev pub reason_no_candidates : String
reason_no_candidates = "NoCandidates"
