-- ===== src/Node/Clocks.antt =====
-- The timers of the sender: each can fire.
use swarm_discovery.Prelude.{ℕ, ◌≡◌, ap, List, [], ◌∷◌, ◌++◌, All, inl, inr}
use swarm_discovery.Std.Outcome.{ok}
use swarm_discovery.Std.Time.{Duration}
use swarm_discovery.Sender.Machine.{
  Effect, start_timer, abort_timer, send_packet, send_peers, subscribe_size,
}
use swarm_discovery.Sender.Timely.{HasDelay, IsTimed}
use swarm_discovery.Node.Waiting.{Runs}
use swarm_discovery.Node.{Timer, running_after, aborted_by}

abbrev pub CanFire : Timer → Type 0
CanFire (delay, count) = HasDelay delay

module _ {Name : Type 0} where
  pub running_after-CanFire :
      (es : List (Effect Name)) (live : List Timer)
      → All IsTimed es
      → All CanFire live
      → All CanFire (running_after es live)
  running_after-CanFire [] live h k = k
  running_after-CanFire (start_timer delay count ∷ es) live h k =
      running_after-CanFire es ((delay, count) ∷ live) h.1 (h.0, k)
  running_after-CanFire (abort_timer ∷ es) [] h k = running_after-CanFire es [] h.1 tt
  running_after-CanFire (abort_timer ∷ es) (t ∷ live) h k = running_after-CanFire es live h.1 k.1
  running_after-CanFire (send_packet m mode ∷ es) live h k = running_after-CanFire es live h.1 k
  running_after-CanFire (send_peers m ∷ es) live h k = running_after-CanFire es live h.1 k
  running_after-CanFire (subscribe_size ∷ es) live h k = running_after-CanFire es live h.1 k

  pub aborted_by-CanFire :
      (es : List (Effect Name)) (live : List Timer)
      → All IsTimed es
      → All CanFire live
      → All CanFire (aborted_by es live)
  aborted_by-CanFire [] live h k = tt
  aborted_by-CanFire (start_timer delay count ∷ es) live h k =
      aborted_by-CanFire es ((delay, count) ∷ live) h.1 (h.0, k)
  aborted_by-CanFire (abort_timer ∷ es) [] h k = aborted_by-CanFire es [] h.1 tt
  aborted_by-CanFire (abort_timer ∷ es) (t ∷ live) h k = (k.0, aborted_by-CanFire es live h.1 k.1)
  aborted_by-CanFire (send_packet m mode ∷ es) live h k = aborted_by-CanFire es live h.1 k
  aborted_by-CanFire (send_peers m ∷ es) live h k = aborted_by-CanFire es live h.1 k
  aborted_by-CanFire (subscribe_size ∷ es) live h k = aborted_by-CanFire es live h.1 k

pub without_one :
    (before after : List Timer) (t : Timer)
    → All CanFire (before ++ t ∷ after)
    → All CanFire (before ++ after)
without_one [] after t h = h.1
without_one (b ∷ before) after t h = (h.0, without_one before after t h.1)

-- A timer with the number among those that run, and its delay.
abbrev pub Found : ℕ → List Timer → Type 0
Found c ts =
    (before : List Timer) × (after : List Timer) × (delay : Duration) × (ts
      ≡ before ++ (ok delay, c) ∷ after)

pub find_timer : (c : ℕ) (ts : List Timer) → Runs c ts → All CanFire ts → Found c ts
find_timer c [] h k = absurd h
find_timer c ((delay, count) ∷ ts) (inl e) k = ([], ts, k.0.0, ap (λ t. t ∷ ts) (cc (k.0.1, e)))
find_timer c (t ∷ ts) (inr h) k =
    let (before, after, delay, e) = find_timer c ts h k.1 in
    (t ∷ before, after, delay, ap (λ l. t ∷ l) e)
