-- ===== src/Publisher.antt =====
-- internal/publisher: from probed devices to the devices of the node's ResourceSlice.
pub mod Attributes
pub mod Match
pub mod Build
pub mod Writes
pub mod Schema
pub mod Names
pub mod Resolves
pub mod Marks
pub mod Fitness
pub mod Pairing
pub mod Coexist
pub mod Start
pub mod Classes
pub mod Memory
