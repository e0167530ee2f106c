-- ===== src/Sender.antt =====
-- src/sender.rs: the messages that a node sends, and the actor that decides when.
pub mod Response
pub mod Delay
pub mod Machine
pub mod Traces
pub mod Timers
pub mod Sending
pub mod Invariant
pub mod Current
pub mod Updates
pub mod Setup
pub mod Sound
pub mod Ports
pub mod Going
pub mod Timely
pub mod Progress
