-- ===== src/ModelClaim/Satisfiable.antt =====
-- satisfiable.go and satisfiable_nvidia.go: the static evaluation of the bounds against the
-- published slices.
pub mod Pools
pub mod Tally
pub mod Score
pub mod Assess
pub mod Messages
pub mod Llmfit
pub mod Nvidia
