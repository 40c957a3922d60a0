-- ===== src/Tests/Fixtures.antt =====
-- The inputs that the tests share.
use llmfit_dra.Prelude.{
  String, ℕ, zero, suc, ◌+◌, ◌*◌, ◌/◌, Option, none, some, List, [], ◌∷◌, Bool, true, arith, ltb,
  ◌==◌, if◌then◌else◌, eq_iff, eq_refl,
}
use llmfit_dra.Prelude.Maps.{GoMap}
use llmfit_dra.Prelude.Int64.{pos, negsuc}
use llmfit_dra.Index.{NvidiaBoards}
use llmfit_dra.Resource.{Device, ResourceSlice, int_attr, bool_attr, string_attr}
use llmfit_dra.ModelClaim.Bounds.{Bounds}
use llmfit_dra.ModelClaim.Satisfiable.Score.{Float}
use llmfit_dra.ModelClaim.Thresholds.Machine.{Spec}
use llmfit_dra.ModelClaim.Types.{ModelClaim, Template, Condition}
use llmfit_dra.ModelClaim.Controller.Act.{Controller, Reply}
use llmfit_dra.ModelClaim.Controller.Env.{
  Env, ConditionLaws, GetAnswer, updated, claim_found, status_ok,
}

abbrev pub a100 : Spec
a100 = record {
  name = "NVIDIA A100-SXM4-80GB";
  mem = 81920;
  bandwidth = 2039;
  tflops = 312;
  sms = 108;
  slices = 8;
}

abbrev pub bounds_of : ℕ → ℕ → Bounds
bounds_of gi gbs = record {
  model = "Qwen/Qwen3-8B";
  claim_name = "qwen3-8b";
  quant = "Q4_K_M";
  weights_gb = "4.9";
  memory_gi = gi;
  min_bandwidth_gbs = gbs;
  resolver_version = "0.9.34";
}

-- Scores are natural numbers here.
abbrev pub counting : Float
counting = record {
  F = ℕ;
  of_int = λ n. elim n [ pos k ↦ k | negsuc k ↦ 0 ];
  of_uint = λ n. n;
  add = λ a b. a + b;
  mul = λ a b. a * b;
  div = λ a b. elim b [ zero ↦ 0 | suc k ↦ a / suc k ];
  gt = λ a b. ltb b a;
  zero_score = 0;
  one_score = 1;
  tenth = 0;
  minus_one = 0;
}

abbrev pub gpu : String → ℕ → Device
gpu name gi = record {
  name = name;
  attributes =
      ("kind", string_attr "gpu")
      ∷ ("memoryBandwidthGBs", int_attr (pos 800))
      ∷ ("healthy", bool_attr true)
      ∷ [];
  capacity = ("memory", pos (gi * 1073741824)) ∷ [];
  taints = [];
}

abbrev pub slice_of : ℕ → List Device → ResourceSlice
slice_of gen devices = record {
  driver = "llmfit.ai";
  pool_name = "node-a";
  pool_generation = pos gen;
  node_name = some "node-a";
  devices = devices;
}

-- A newer slice with two GPUs, one of them too small, and a slice that it supersedes.
abbrev pub two_slices : List ResourceSlice
two_slices =
    slice_of 2 (gpu "gpu-0000-01-00-0" 24 ∷ gpu "gpu-0000-02-00-0" 4 ∷ [])
    ∷ slice_of 1 (gpu "gpu-0000-01-00-0" 24 ∷ [])
    ∷ []

abbrev pub held : GoMap String
held = ("node-a/gpu-0000-01-00-0", "default/other") ∷ []

abbrev pub claim : String → ModelClaim
claim model = record {
  namespace = "default";
  name = "qwen3-8b";
  uid = "0ba5";
  generation = pos 3;
  spec = record {
    model = model;
    min_tps = none;
    quant = "";
    efficiency_pct = none;
    device_class_name = "";
    target_driver = "";
    min_compute_tflops = none;
    extra_selectors = [];
  };
  status = record {
    observed_generation = pos 2;
    resolved = none;
    template_ref = none;
    candidates = none;
    conditions = [];
  };
}

-- Conditions as a list in which the newest of a type comes first.
abbrev pub put_condition : List Condition → Condition → List Condition
put_condition cs c = c ∷ cs

unfoldable pub find_condition : List Condition → String → Option Condition
find_condition [] kind = none
find_condition (c ∷ cs) kind = if c.kind == kind then some c else find_condition cs kind

abbrev pub no_boards : NvidiaBoards
no_boards = record { boards = []; version = "" }

abbrev pub env_of : Reply Bounds → GetAnswer → (Template → ModelClaim → Bool) → Env
env_of answer template ours = record {
  now = 1000;
  resolver = λ model tps quant eff. answer;
  get_template = template;
  create_template = none;
  update_template = updated;
  delete_template = none;
  get_claim = claim_found (claim "Qwen/Qwen3-8B");
  encode_error = none;
  update_status = status_ok;
  is_controlled_by = ours;
  slices = two_slices;
  claims = [];
  boards = no_boards;
  float = counting;
  quote = λ s. s;
  set_status_condition = put_condition;
  find_status_condition = find_condition;
}

abbrev pub fresh : Controller
fresh = record { resolve_cache = []; last_event = []; calls = [] }

-- A template of another owner under the name of the claim.
abbrev pub stray : Template
stray = record {
  name = "qwen3-8b";
  namespace = "default";
  labels = [];
  annotations = [];
  owners = [];
  requests = [];
  claim_config = "";
}

pub condition_laws :
    (answer : Reply Bounds) (template : GetAnswer) (ours : Template → ModelClaim → Bool)
    → ConditionLaws (env_of answer template ours)
unfolding find_condition
condition_laws answer template ours = record {
  find_set_self = λ cs c. ground (arith, eq_refl c.kind);
  find_set_ne = λ cs c kind h. ground (arith, eq_iff c.kind kind);
}
