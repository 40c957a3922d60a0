-- ===== src/Resource.antt =====
-- The fields of the Kubernetes resource.k8s.io/v1 objects that the program reads and writes. The
-- pointers of the Go structs are options.
use llmfit_dra.Prelude.{String, Option, none, some, List, Bool}
use llmfit_dra.Prelude.Maps.{GoMap, lookup}
use llmfit_dra.Prelude.Int64.{ℤ}

pub record DeviceAttribute : Type 0 where
  pub string_value : Option String
  pub bool_value : Option Bool
  pub int_value : Option ℤ

abbrev pub string_attr : String → DeviceAttribute
string_attr s = record { string_value = some s; bool_value = none; int_value = none }

abbrev pub bool_attr : Bool → DeviceAttribute
bool_attr b = record { string_value = none; bool_value = some b; int_value = none }

abbrev pub int_attr : ℤ → DeviceAttribute
int_attr n = record { string_value = none; bool_value = none; int_value = some n }

pub record DeviceTaint : Type 0 where
  pub key : String
  pub value : String
  pub effect : String

-- A capacity is a quantity; the program reads it by `Value()` only.
pub record Device : Type 0 where
  pub name : String
  pub attributes : GoMap DeviceAttribute
  pub capacity : GoMap ℤ
  pub taints : List DeviceTaint

pub record ResourceSlice : Type 0 where
  pub driver : String
  pub pool_name : String
  pub pool_generation : ℤ
  pub node_name : Option String
  pub devices : List Device

-- One device of a claim's allocation.
pub record AllocationResult : Type 0 where
  pub request : String
  pub driver : String
  pub pool : String
  pub device : String

-- `allocation` is `status.allocation`, with its `devices.results`.
pub record ResourceClaim : Type 0 where
  pub namespace : String
  pub name : String
  pub uid : String
  pub allocation : Option (List AllocationResult)

-- `if a, ok := attrs[k]; ok && a.StringValue != nil`, and so for the other kinds.
abbrev pub string_at : GoMap DeviceAttribute → String → Option String
string_at attrs k = elim (lookup k attrs) [ none ↦ none | some a ↦ a.string_value ]

abbrev pub bool_at : GoMap DeviceAttribute → String → Option Bool
bool_at attrs k = elim (lookup k attrs) [ none ↦ none | some a ↦ a.bool_value ]

abbrev pub int_at : GoMap DeviceAttribute → String → Option ℤ
int_at attrs k = elim (lookup k attrs) [ none ↦ none | some a ↦ a.int_value ]
