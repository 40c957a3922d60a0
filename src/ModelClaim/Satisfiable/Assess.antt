-- ===== src/ModelClaim/Satisfiable/Assess.antt =====
-- EvaluateSlices of satisfiable.go: the tests of one device.
use llmfit_dra.Prelude.{
  String, Option, none, some, Bool, true, false, ◌||◌, ◌&&◌, ◌==◌, if◌then◌else◌,
}
use llmfit_dra.Prelude.Maps.{lookup}
use llmfit_dra.Prelude.Int64.{ℤ, pos, of_u64, mul64, div64, leb64, eqb64}
use llmfit_dra.Resource.{Device, string_at, bool_at, int_at}
use llmfit_dra.ModelClaim.Backend.{driver_domain, cpu_class, gpu_class, kind_for_class}
use llmfit_dra.ModelClaim.Bounds.{Bounds}

abbrev pub gib : ℤ → ℤ
gib n = div64 n (mul64 (mul64 (pos 1024) (pos 1024)) (pos 1024))

-- The arguments of one evaluation.
pub record Query : Type 0 where
  pub bounds : Bounds
  pub class : String
  pub min_compute : ℤ

unfoldable pub mem_floor : Bounds → ℤ
mem_floor b = mul64 (mul64 (mul64 (of_u64 b.memory_gi) (pos 1024)) (pos 1024)) (pos 1024)

pub data Standing : Type 0 where
  skipped excluded eligible : Standing

-- `wantKind`, and the exclusion of vendor-managed devices from the default classes.
unfoldable pub kind_matches : String → Option String → Bool
kind_matches want none = want == ""
kind_matches want (some k) = want == "" || k == want

unfoldable pub vendor_managed : Device → Bool
vendor_managed dev = elim (bool_at dev.attributes "vendorManaged") [ none ↦ false | some v ↦ v ]

unfoldable pub standing : String → Device → Standing
unfolding kind_matches vendor_managed
standing class dev =
    if kind_matches (kind_for_class class) (string_at dev.attributes "kind")
    then (if (class == driver_domain || class == gpu_class) && vendor_managed dev
        then excluded
        else eligible)
    else skipped

-- What the loop reads off a device, and its four tests.
pub record Verdict : Type 0 where
  pub mem : ℤ
  pub bw : ℤ
  pub compute : ℤ
  pub mem_ok : Bool
  pub bw_ok : Bool
  pub compute_ok : Bool
  pub healthy_ok : Bool

abbrev pub read_or : ℤ → Option ℤ → ℤ
read_or d none = d
read_or d (some n) = n

unfoldable pub assess : Query → Device → Verdict
unfolding mem_floor
assess q dev =
    let mem = lookup "memory" dev.capacity in
    let bw = int_at dev.attributes "memoryBandwidthGBs" in
    let compute = read_or (pos 0) (int_at dev.attributes "computeTFLOPS") in
    record {
      mem = read_or (pos 0) mem;
      bw = read_or (pos 0) bw;
      compute = compute;
      mem_ok = elim mem [ none ↦ false | some m ↦ leb64 (mem_floor q.bounds) m ];
      bw_ok =
          if q.class == cpu_class
          then true
          else (elim bw [ none ↦ false | some n ↦ leb64 (of_u64 q.bounds.min_bandwidth_gbs) n ]);
      compute_ok = eqb64 q.min_compute (pos 0) || leb64 q.min_compute compute;
      healthy_ok = elim (bool_at dev.attributes "healthy") [ none ↦ false | some h ↦ h ];
    }

unfoldable pub fits : Verdict → Bool
fits v = v.mem_ok && v.bw_ok && v.compute_ok && v.healthy_ok
