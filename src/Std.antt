-- ===== src/Std.antt =====
-- What the source uses of Rust's language and standard library.
pub mod Ord
pub mod Sort
pub mod BtreeMap
pub mod HashMap
pub mod HashSet
pub mod Outcome
pub mod Text
pub mod Time
pub mod Float
pub mod Net
