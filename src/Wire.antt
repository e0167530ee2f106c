-- ===== src/Wire.antt =====
-- What a node announces (src/sender.rs) is what another node reads (src/receiver.rs).
pub mod Names
pub mod Services
pub mod Addresses
pub mod Attributes
pub mod RoundTrip
pub mod Contents
pub mod Lengths
