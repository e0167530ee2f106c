-- ===== src/Sender/Traces.antt =====
-- What a run of the sender leaves: its timers, its packets, what it hands to the updater.
use swarm_discovery.Prelude.{ℕ, ◌≡◌, refl, ap, List, [], ◌∷◌, ◌++◌}
use swarm_discovery.Std.Outcome.{ok, panic}
use swarm_discovery.Std.Ord.{nat_ord}
use swarm_discovery.Dns.{Message}
use swarm_discovery.Std.BtreeMap.{BtreeMap}
use swarm_discovery.Std.Text.{Str}
use swarm_discovery.Peer.{Peer, Mode}
use swarm_discovery.Sender.Machine.{
  State, Effect, start_timer, abort_timer, send_packet, send_peers, subscribe_size, Step,
}

module _ {Name : Type 0} where
  -- The numbers of the timers that are started, and the packets that are sent.
  unfoldable pub timers : List (Effect Name) → List ℕ
  timers [] = []
  timers (start_timer delay count ∷ es) = count ∷ timers es
  timers (abort_timer ∷ es) = timers es
  timers (send_packet msg mode ∷ es) = timers es
  timers (send_peers m ∷ es) = timers es
  timers (subscribe_size ∷ es) = timers es

  unfoldable pub packets : List (Effect Name) → List (Message Name × Mode)
  packets [] = []
  packets (start_timer delay count ∷ es) = packets es
  packets (abort_timer ∷ es) = packets es
  packets (send_packet msg mode ∷ es) = (msg, mode) ∷ packets es
  packets (send_peers m ∷ es) = packets es
  packets (subscribe_size ∷ es) = packets es

  pub timers-append : (xs ys : List (Effect Name)) → timers (xs ++ ys) ≡ timers xs ++ timers ys
  unfolding timers
  timers-append [] ys = refl
  timers-append (start_timer delay count ∷ es) ys = ap (◌∷◌ count) (timers-append es ys)
  timers-append (abort_timer ∷ es) ys = timers-append es ys
  timers-append (send_packet msg mode ∷ es) ys = timers-append es ys
  timers-append (send_peers m ∷ es) ys = timers-append es ys
  timers-append (subscribe_size ∷ es) ys = timers-append es ys

  pub packets-append : (xs ys : List (Effect Name)) → packets (xs ++ ys) ≡ packets xs ++ packets ys
  unfolding packets
  packets-append [] ys = refl
  packets-append (start_timer delay count ∷ es) ys = packets-append es ys
  packets-append (abort_timer ∷ es) ys = packets-append es ys
  packets-append (send_packet msg mode ∷ es) ys = ap (◌∷◌ (msg, mode)) (packets-append es ys)
  packets-append (send_peers m ∷ es) ys = packets-append es ys
  packets-append (subscribe_size ∷ es) ys = packets-append es ys

  -- A property of the state and the effects, if there is no panic.
  abbrev pub Ensures : (State Name → List (Effect Name) → Type 0) → Step Name → Type 0
  Ensures P (ok (st, es)) = P st es
  Ensures P panic = Unit

  -- The responses that are handed to the updater.
  unfoldable pub handed_on : List (Effect Name) → List (BtreeMap Str Peer)
  handed_on [] = []
  handed_on (start_timer delay count ∷ es) = handed_on es
  handed_on (abort_timer ∷ es) = handed_on es
  handed_on (send_packet msg mode ∷ es) = handed_on es
  handed_on (send_peers m ∷ es) = m ∷ handed_on es
  handed_on (subscribe_size ∷ es) = handed_on es

  pub handed_on-append :
      (xs ys : List (Effect Name)) → handed_on (xs ++ ys) ≡ handed_on xs ++ handed_on ys
  unfolding handed_on
  handed_on-append [] ys = refl
  handed_on-append (start_timer delay count ∷ es) ys = handed_on-append es ys
  handed_on-append (abort_timer ∷ es) ys = handed_on-append es ys
  handed_on-append (send_packet msg mode ∷ es) ys = handed_on-append es ys
  handed_on-append (send_peers m ∷ es) ys = ap (◌∷◌ m) (handed_on-append es ys)
  handed_on-append (subscribe_size ∷ es) ys = handed_on-append es ys
