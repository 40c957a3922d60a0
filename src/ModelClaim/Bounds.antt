-- ===== src/ModelClaim/Bounds.antt =====
-- The resolver's answer, `Bounds` of resolver.go.
use llmfit_dra.Prelude.{String, ℕ}
use llmfit_dra.Prelude.Int64.{ℤ, pos, mul64, of_u64}

-- `memory_gi` and `min_bandwidth_gbs` are uint64. The JSON numbers `weightsGb`, `minTps` and
-- `efficiencyPct` are never computed with: the first is kept in the form in which it is printed.
pub record Bounds : Type 0 where
  pub model : String
  pub claim_name : String
  pub quant : String
  pub weights_gb : String
  pub memory_gi : ℕ
  pub min_bandwidth_gbs : ℕ
  pub resolver_version : String

-- The memory floor in MiB.
unfoldable pub nvidia_mem_floor_mib : Bounds → ℤ
nvidia_mem_floor_mib b = mul64 (of_u64 b.memory_gi) (pos 1024)
