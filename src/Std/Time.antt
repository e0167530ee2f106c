-- ===== src/Std/Time.antt =====
-- `Duration` and `Instant` in nanoseconds. A duration that its seconds (a `u64`) cannot hold panics.
use swarm_discovery.Prelude.{
  ℕ, ◌+◌, ◌-◌, ◌*◌, ◌/◌, ◌^◌, ◌<◌, ◌≡◌, Option, none, some, ltb, leb, ◌==◌, if◌then◌else◌, lt→ltb,
}
use swarm_discovery.Std.Outcome.{Outcome, ok, panic}

abbrev pub Duration : Type 0
Duration = ℕ

abbrev pub Instant : Type 0
Instant = ℕ

abbrev pub from_secs : ℕ → Duration
from_secs n = n * 1_000_000_000

abbrev pub from_millis : ℕ → Duration
from_millis n = n * 1_000_000

-- One more than the longest duration: 2^64 seconds.
unfoldable pub duration_limit : ℕ
duration_limit = 2 ^ 64 * 1_000_000_000

unfoldable pub checked : ℕ → Outcome Duration
unfolding duration_limit
checked n = if ltb n duration_limit then ok n else panic

-- `d * n` for a `u32`
abbrev pub mul_u32 : Duration → ℕ → Outcome Duration
mul_u32 d n = checked (d * n)

-- `d / n` for a `u32`
abbrev pub div_u32 : Duration → ℕ → Outcome Duration
div_u32 d n = if n == 0 then panic else ok (d / n)

abbrev pub add_duration : Duration → Duration → Outcome Duration
add_duration a b = checked (a + b)

-- `checked_sub`
abbrev pub checked_sub : Duration → Duration → Option Duration
checked_sub a b = if leb b a then some (a - b) else none

-- `checked_duration_since`
abbrev pub checked_duration_since : Instant → Instant → Option Duration
checked_duration_since later earlier = if leb earlier later then some (later - earlier) else none

pub checked_below : (n : ℕ) → n < duration_limit → checked n ≡ ok n
unfolding checked
checked_below n h = rw (lt→ltb _ _ h)
