-- ===== src/Tests.antt =====
-- The theorems at concrete inputs: an A100 board, a small cluster, and passes over one claim.
pub mod Fixtures
pub mod Bounds
pub mod Selectors
pub mod Passes
pub mod Plugin
pub mod Watching
pub mod Publishing
pub mod Listening
pub mod Probing
pub mod NvidiaSelectors
pub mod Running
pub mod Looping
pub mod Writing
