-- ===== src/Std/Float.antt =====
-- `f32`, as its 32-bit pattern. The IEEE operations on patterns are parameters.
use swarm_discovery.Prelude.{ℕ}
use swarm_discovery.Std.Outcome.{Outcome}
use swarm_discovery.Std.Time.{Duration}

abbrev pub F32 : Type 0
F32 = ℕ

-- The literals `1.0`, `2.5` and `3.0`.
abbrev pub one : F32
one = 0x3f800000

abbrev pub two_and_half : F32
two_and_half = 0x40200000

abbrev pub three : F32
three = 0x40400000

pub record FloatOps : Type 0 where
  pub mul : F32 → F32 → F32
  pub div : F32 → F32 → F32
  pub min : F32 → F32 → F32
  pub ceil : F32 → F32
  -- `n as f32` for a `usize`
  pub from_usize : ℕ → F32
  -- `x as u32`, which saturates
  pub to_u32 : F32 → ℕ
  -- `Duration::as_secs_f32`
  pub as_secs_f32 : Duration → F32
  -- `Duration::from_secs_f32`, which panics on what is negative, too large or no number
  pub from_secs_f32 : F32 → Outcome Duration
