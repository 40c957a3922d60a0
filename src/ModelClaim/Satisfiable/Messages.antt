-- ===== src/ModelClaim/Satisfiable/Messages.antt =====
-- EvaluateSlices of satisfiable.go: the diagnostics.
use Prim.Native.String.{◌++◌}
use llmfit_dra.Prelude.{
  String, ℕ, ◌+◌, ◌-◌, none, some, List, [], ◌∷◌, ◌==◌, if◌then◌else◌, ltb, eqb,
}
use llmfit_dra.Prelude.Maps.{lookup}
use llmfit_dra.Prelude.Text.{decimal, join_with, sort_strings}
use llmfit_dra.Prelude.Int64.{ℤ, pos, negsuc, ltb64, eqb64, decimal64}
use llmfit_dra.Resource.{Device, string_at}
use llmfit_dra.ModelClaim.Satisfiable.Assess.{Query, Verdict, read_or, gib}

-- The reasons of a near miss, in the order in which they are appended.
unfoldable pub miss_reasons : Query → Verdict → List String
miss_reasons q v =
    let healthy : List String = if v.healthy_ok then [] else "unhealthy" ∷ [] in
    let compute : List String =
      if v.compute_ok
      then healthy
      else (if eqb64 v.compute (pos 0)
          then "no computeTFLOPS published"
          else "compute " ++ decimal64 v.compute ++ " < " ++ decimal64 q.min_compute ++ " TFLOPS")
        ∷ healthy in
    let bandwidth : List String =
      if v.bw_ok
      then compute
      else (if eqb64 v.bw (pos 0)
          then "no memoryBandwidthGBs published"
          else "bandwidth "
            ++ decimal64 v.bw
            ++ " < "
            ++ decimal q.bounds.min_bandwidth_gbs
            ++ " GB/s")
        ∷ compute in
    if v.mem_ok
    then bandwidth
    else ("memory " ++ decimal64 (gib v.mem) ++ "Gi < " ++ decimal q.bounds.memory_gi ++ "Gi")
      ∷ bandwidth

unfoldable pub miss_message : Query → String → Device → Verdict → String
miss_message q node dev v =
    "closest device "
    ++ dev.name
    ++ " (node "
    ++ node
    ++ "): "
    ++ join_with ", " (sort_strings (miss_reasons q v))

-- The variables about devices that the default classes exclude.
pub record Excluded : Type 0 where
  pub count : ℕ
  pub name : String
  pub node : String
  pub model : String
  pub mem : ℤ

abbrev pub none_excluded : Excluded
none_excluded = record { count = 0; name = ""; node = ""; model = ""; mem = negsuc 0 }

unfoldable pub note_excluded : String → Device → Excluded → Excluded
note_excluded node dev x =
    let mem = read_or (pos 0) (lookup "memory" dev.capacity) in
    if ltb64 x.mem mem
    then record {
      count = x.count + 1;
      name = dev.name;
      node = node;
      model = elim (string_at dev.attributes "model") [ none ↦ "" | some m ↦ m ];
      mem = mem;
    }
    else record x { count = x.count + 1 }

abbrev pub no_devices_msg : String
no_devices_msg = "no llmfit.ai devices published"

abbrev pub facts_of : Excluded → List String
facts_of x =
    let size : List String =
      if ltb64 (pos 0) x.mem then (decimal64 (gib x.mem) ++ "Gi") ∷ [] else [] in
    if x.model == "" then size else x.model ∷ size

abbrev pub excluded_text : String
excluded_text =
    " excluded: vendorManaged — this class only allocates devices llmfit-dra can prepare; install the vendor's DRA driver or opt in via a custom DeviceClass; "

-- The excluded device as the diagnostic names it.
unfoldable pub describe_excluded : Excluded → String
describe_excluded x =
    let facts = facts_of x in
    let named : String = elim facts [
      | [] ↦ x.name
      | f ∷ r ↦ x.name ++ (" (" ++ join_with ", " (f ∷ r) ++ ")")
    ] in
    if x.node == "" then named else named ++ (" on node " ++ x.node)

unfoldable pub excluded_msg : Excluded → String → String
unfolding describe_excluded
excluded_msg x best =
    let more : String = if ltb 1 x.count then " and " ++ decimal (x.count - 1) ++ " more" else "" in
    describe_excluded x
    ++ more
    ++ excluded_text
    ++ (if best == no_devices_msg then "no other eligible devices published" else best)

-- `c.Shortfall`
unfoldable pub shortfall : ℕ → String → Excluded → String
unfolding excluded_msg
shortfall devices best x =
    if eqb devices 0
    then (let msg = if best == "" then no_devices_msg else best in
        if ltb 0 x.count then excluded_msg x msg else msg)
    else ""
