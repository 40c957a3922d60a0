-- ===== src/ModelClaim/Event.antt =====
-- events.go: the core Event of a ModelClaim.
use Prim.Native.String.{◌++◌}
use llmfit_dra.Prelude.{String, ℕ}
use llmfit_dra.ModelClaim.Types.{ModelClaim}

pub record ObjectReference : Type 0 where
  pub api_version : String
  pub kind : String
  pub namespace : String
  pub name : String
  pub uid : String

pub record CoreEvent : Type 0 where
  pub generate_name : String
  pub namespace : String
  pub involved_object : ObjectReference
  pub kind : String
  pub reason : String
  pub message : String
  pub first_timestamp : ℕ
  pub last_timestamp : ℕ
  pub count : ℕ
  pub component : String

-- `eventFor`
unfoldable pub event_for : ModelClaim → String → String → String → ℕ → CoreEvent
event_for mc kind reason message now = record {
  generate_name = mc.name ++ ".";
  namespace = mc.namespace;
  involved_object = record {
    api_version = "llmfit.ai/v1alpha1";
    kind = "ModelClaim";
    namespace = mc.namespace;
    name = mc.name;
    uid = mc.uid;
  };
  kind = kind;
  reason = reason;
  message = message;
  first_timestamp = now;
  last_timestamp = now;
  count = 1;
  component = "llmfit-dra-modelclaim";
}
