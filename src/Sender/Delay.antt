-- ===== src/Sender/Delay.antt =====
-- The delays that src/sender.rs draws: how long a node waits for a query, and how long with its
-- response. A draw is a `millionth`, a number below a million.
use native.Mathlib.Nat.{div-le_self}
use swarm_discovery.Prelude.{
  ℕ, ◌+◌, ◌-◌, ◌*◌, ◌/◌, ◌%◌, ◌^◌, ◌≤◌, ◌<◌, ◌≡◌, min, Bool, true, false, none, some, if◌then◌else◌,
  ◌==◌, arith,
}
use swarm_discovery.Std.Float.{F32, FloatOps}
use swarm_discovery.Std.Outcome.{Outcome, ok, panic, ◌>>=◌}
use swarm_discovery.Std.Time.{
  Duration, from_millis, mul_u32, div_u32, add_duration, checked_sub, duration_limit, checked_below,
}

-- `RESPONSE_DELAY`
abbrev pub response_delay : Duration
response_delay = from_millis 100

-- `n as u32` for a `usize`
abbrev pub as_u32 : ℕ → ℕ
as_u32 n = n % 2 ^ 32

-- The number of responses that end a cycle.
unfoldable pub cutoff : FloatOps → Duration → F32 → ℕ
cutoff f tau phi = f.to_u32 (f.ceil (f.mul (f.as_secs_f32 tau) phi))

-- `interval / 1_000_000 * millionth`
unfoldable pub part_of : Duration → ℕ → Outcome Duration
part_of interval millionth = do part ← div_u32 interval 1_000_000; mul_u32 part millionth

unfoldable pub query_delay : Duration → ℕ → ℕ → Outcome Duration
unfolding part_of
query_delay tau swarm_size millionth = do
  scaled ← mul_u32 tau (as_u32 swarm_size)
  interval ← div_u32 scaled 10
  random ← part_of interval millionth
  add_duration tau random

-- `extra_delay`: for fairness, one that has responded waits longer in a large swarm.
unfoldable pub next_extra_delay : Bool → Duration → ℕ → ℕ → Outcome Duration
next_extra_delay has_responded extra_delay swarm_size cutoff =
    if has_responded
    then (if cutoff == 0
        then panic
        else mul_u32 response_delay (min (as_u32 swarm_size / cutoff) 10))
    else ok (elim (checked_sub extra_delay response_delay) [ none ↦ 0 | some d ↦ d ])

unfoldable pub respond_delay : Duration → ℕ → ℕ → ℕ → Outcome Duration
unfolding part_of
respond_delay extra_delay swarm_size cutoff millionth = do
  scaled ← mul_u32 response_delay (as_u32 swarm_size)
  interval ← div_u32 scaled cutoff
  random ← part_of interval millionth
  add_duration random extra_delay

part_le : (i m : ℕ) → m < 1_000_000 → i / 1_000_000 * m ≤ i
part_le i m h = omega (arith, times_le (i / 1_000_000) m h)
  where
    times_le : (q m : ℕ) → m < 1_000_000 → q * m ≤ q * 1_000_000
    times_le q m h = grind arith

-- For a positive cutoff, an extra delay of a second at most is followed by another, whose
-- computation does not panic.
pub next_extra_delay_bound :
    (has_responded : Bool) (extra size cut : ℕ)
    → extra ≤ 10 * response_delay
    → 0 < cut
    → (d : Duration) × (next_extra_delay has_responded extra size cut ≡ ok d)
      × (d ≤ 10 * response_delay)
unfolding next_extra_delay
next_extra_delay_bound true extra size cut h pos = (
  response_delay * min (as_u32 size / cut) 10,
  rw (positive, checked_below _ in_range),
  omega arith,
)
  where
    positive : (cut == 0) ≡ false
    positive = ground arith

    in_range : response_delay * min (as_u32 size / cut) 10 < duration_limit
    in_range = unfold duration_limit in omega arith
next_extra_delay_bound false extra size cut h pos =
    (extra - response_delay, ground arith, omega arith)

-- Where `tau` times the size of the swarm, and `tau` more, is within the range of a duration, the
-- computation of the delay of a query does not panic, and the query waits for at least `tau`, and
-- for at most a tenth of `tau` more for each peer of the swarm.
pub query_delay_bounds :
    (tau size millionth : ℕ)
    → tau + tau * as_u32 size < duration_limit
    → millionth < 1_000_000
    → (d : Duration) × (query_delay tau size millionth ≡ ok d)
      × (tau ≤ d)
      × (10 * d ≤ 10 * tau + tau * as_u32 size)
unfolding query_delay
query_delay_bounds tau size millionth k m = (
  tau + part,
  rw (
    checked_below scaled (omega arith),
    checked_below part (omega (arith, small)),
    checked_below (tau + part) (omega (arith, small)),
  ),
  omega arith,
  omega (arith, small),
)
  where
    scaled : ℕ
    scaled = tau * as_u32 size

    part : ℕ
    part = scaled / 10 / 1_000_000 * millionth

    small : part ≤ scaled / 10
    small = part_le (scaled / 10) millionth m

-- For a positive cutoff and an extra delay of a second at most, the computation of the delay of a
-- response does not panic, and the response waits for the extra delay, and for at most 100ms more
-- for each `cut` peers of the swarm.
pub respond_delay_bounds :
    (extra size cut millionth : ℕ)
    → extra ≤ 10 * response_delay
    → 0 < cut
    → millionth < 1_000_000
    → (d : Duration) × (respond_delay extra size cut millionth ≡ ok d)
      × (extra ≤ d)
      × (d ≤ extra + response_delay * as_u32 size / cut)
unfolding respond_delay
respond_delay_bounds extra size cut millionth h pos m = (
  part + extra,
  rw (
    checked_below scaled (omega (arith, in_range)),
    positive,
    checked_below part (omega (arith, small, in_range, shrinks)),
    checked_below (part + extra) (omega (arith, small, in_range, shrinks)),
  ),
  omega arith,
  omega (arith, small),
)
  where
    scaled : ℕ
    scaled = response_delay * as_u32 size

    part : ℕ
    part = scaled / cut / 1_000_000 * millionth

    small : part ≤ scaled / cut
    small = part_le (scaled / cut) millionth m

    shrinks : scaled / cut ≤ scaled
    shrinks = div-le_self scaled cut

    in_range : scaled + 10 * response_delay < duration_limit
    in_range = unfold duration_limit in omega arith

    positive : (cut == 0) ≡ false
    positive = ground arith
