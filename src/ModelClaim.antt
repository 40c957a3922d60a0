-- ===== src/ModelClaim.antt =====
-- internal/modelclaim: the ModelClaim controller and the compilers and evaluators that it calls.
pub mod Backend
pub mod Bounds
pub mod Resolver
pub mod Cel
pub mod Thresholds
pub mod Types
pub mod Template
pub mod Controller
pub mod Event
pub mod MigProfile
pub mod Satisfiable
