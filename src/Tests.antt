-- ===== src/Tests.antt =====
-- Runs of the node at sample values.
pub mod Names
pub mod Samples
pub mod Packets
pub mod Phases
pub mod Peers
pub mod Node
pub mod System
pub mod Composed
pub mod Spawned
pub mod Programs
pub mod Discovery
pub mod Settling
pub mod Changes
