-- ===== src/Publisher/Start.antt =====
-- Start of publisher.go: what it asks of the resourceslice helper, and how it counts its errors.
use llmfit_dra.Prelude.{String}
use llmfit_dra.ModelClaim.Backend.{driver_domain}
use llmfit_dra.Agent.{DriverResources}
use llmfit_dra.Observe.Counters.{Metrics, slice_publish_error}

pub record SliceOwner : Type 0 where
  pub api_version : String
  pub kind : String
  pub name : String

pub record SliceOptions : Type 0 where
  pub driver_name : String
  pub owner : SliceOwner
  pub resources : DriverResources

-- The slices belong to the node, and go with it.
unfoldable pub slice_options : String → DriverResources → SliceOptions
slice_options node_name resources = record {
  driver_name = driver_domain;
  owner = record { api_version = "v1"; kind = "Node"; name = node_name };
  resources = resources;
}

-- An error that the helper reports: fields that the server dropped, or another.
pub data PublishError : Type 0 where
  dropped_fields api_error : String → PublishError

abbrev pub error_kind : PublishError → String
error_kind (dropped_fields e) = "dropped_fields"
error_kind (api_error e) = "api"

-- The `ErrorHandler`.
unfoldable pub on_publish_error : PublishError → Metrics → Metrics
on_publish_error e m = slice_publish_error (error_kind e) m
