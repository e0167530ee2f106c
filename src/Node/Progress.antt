-- ===== src/Node/Progress.antt =====
-- A sane node never panics.
use swarm_discovery.Prelude.{
  ℕ, ◌<◌, ◌^◌, ◌≡◌, refl, true, false, List, [], ◌∷◌, ◌++◌, All, arith, Bool-cases, inl, inr,
}
use swarm_discovery.Std.BtreeMap
use swarm_discovery.Std.BtreeMap.{BtreeMap}
use swarm_discovery.Std.Float.{FloatOps}
use swarm_discovery.Std.Outcome.{Outcome, ok, panic, ◌>>=◌}
use swarm_discovery.Std.Ord.{list_ord, nat_ord}
use swarm_discovery.Std.Text.{Str, is_empty}
use swarm_discovery.Std.Time.{Duration, Instant}
use swarm_discovery.Discoverer.{Discoverer}
use swarm_discovery.Dns.{NameApi, Codec}
use swarm_discovery.Messages.{MdnsMsg, UpdaterInput, peers, gc, size_subscription}
use swarm_discovery.Peer.{Peer}
use swarm_discovery.Sender.Delay.{cutoff}
use swarm_discovery.Sender.Going.{GoesOn}
use swarm_discovery.Sender.Machine
use swarm_discovery.Sender.Machine.{message, dispatch}
use swarm_discovery.Sender.Sound.{Built-IsSound}
use swarm_discovery.Sender.Timely.{HasDelay}
use swarm_discovery.Socket.{SocketApi, Sockets}
use swarm_discovery.Updater
use swarm_discovery.Updater.{
  handle_input, collect, gc_interval, grace_period, kept, expiries, notify, subs_of, start_gc,
}
use swarm_discovery.Node.Answering.{Answering, Reach-Answering}
use swarm_discovery.Node.Current.{CleanMsg, Announcing, Reach-Announcing}
use swarm_discovery.Node.Sane.{IsSane, env_of, gc_interval-HasDelay}
use swarm_discovery.Node.Clocks.{CanFire}
use swarm_discovery.Node.Staying.{Reach-Steady}
use swarm_discovery.Node.Steady.{Steady, round-GoesOn}
use swarm_discovery.Node.{Node, Reach}

module _ {Name Os : Type 0} (n : NameApi Name) (codec : Codec Name) (f : FloatOps)
    (api : SocketApi Os) (service_name : Name) (d : Discoverer) where
  abbrev pub Handles : {A B : Type 0} → Outcome (A × B) → Type 0
  Handles {A = A} {B = B} r = (a : A) × (b : B) × (r ≡ ok (a, b))

  -- The sender handles the first of these messages, if there is one.
  abbrev pub HandlesFirst : Node Name Os → Instant → ℕ → List MdnsMsg → Type 0
  HandlesFirst s now millionth [] = Unit
  HandlesFirst s now millionth (msg ∷ rest) = Handles (
      dispatch n f service_name (env_of codec s now millionth) s.sender.phase (message msg)
        s.sender)

  -- In the state `s`, the guardian is running; the sender handles, at this time and with this random
  -- draw, the message at the head of its mailbox, and the updater this message, without a panic; and
  -- the delay of every timer, also of one that was aborted, could be computed.
  pub record NeverPanics (now : Instant) (millionth : ℕ) (interval : Duration)
      (input : UpdaterInput) (s : Node Name Os) : Type 0 where
    pub guarded : s.guardian.running ≡ true
    pub sends_on : HandlesFirst s now millionth s.mailbox
    pub collects : HasDelay (gc_interval d.tau)
    pub updates_on : Handles (handle_input f d.tau d.phi interval now s.updater input)
    pub timers_fire : All CanFire s.timers
    pub aborted_fire : All CanFire s.aborted

  module _ (sockets : Sockets) (sane : IsSane n f service_name d sockets) where
    going :
        (r : Machine.Step Name)
        → GoesOn n f service_name d.peer_id sane.names (cutoff f d.tau d.phi) r
        → Handles r
    going (ok (st, es)) h = (st, es, refl)
    going panic h = absurd h

    updater_goes :
        (now : Instant) (interval : Duration) (st : Updater.State) (input : UpdaterInput)
        → BtreeMap.len st.table < 2 ^ 32
        → Handles (handle_input f d.tau d.phi interval now st input)
    unfolding handle_input collect
    updater_goes now interval st (peers m) small = (_, _, refl)
    updater_goes now interval st (size_subscription sub) small = (_, _, refl)
    updater_goes now interval st gc small = elim (Bool-cases (is_empty st.table)) [
      | inl e ↦ rw e (_, _, refl)
      | inr e ↦ rw e (
          with_value (grace_period f d.tau d.phi (BtreeMap.len st.table))
            (sane.grace (BtreeMap.len st.table) (some_peer st.table e) small))
    ]
      where
        some_peer : (table : BtreeMap Str Peer) → is_empty table ≡ false → 0 < BtreeMap.len table
        some_peer [] e = cc
        some_peer (x ∷ table) e = omega arith

        with_value :
            (m : Outcome Duration)
            → HasDelay m
            → Handles (
                ◌>>=◌ {B = Updater.State × List Updater.Effect}
                  (◌>>=◌ {B = Updater.State × List Updater.Effect} m (λ g. ok (
                    record st { table = kept now g st.table },
                    expiries now g st.table
                        ++ notify (subs_of st) (BtreeMap.len (kept now g st.table)),
                  )))
                  (λ p. ok (p.0, start_gc interval ∷ p.1)))
        with_value (ok g) h = (_, _, refl)
        with_value panic (g, q) = cc

    sends :
        (s : Node Name Os) (now : Instant) (millionth : ℕ) (ms : List MdnsMsg)
        → Steady n codec f api service_name d sockets sane s
        → Announcing n codec f api service_name d s
        → Answering n codec f api service_name d sockets s
        → All CleanMsg ms
        → HandlesFirst s now millionth ms
    sends s now millionth [] i a can clean = tt
    sends s now millionth (msg ∷ rest) i a can clean =
        going _ (
          round-GoesOn n codec f api service_name d sockets sane s i a can now millionth msg
            clean.0)

    -- A sane node never panics: in every state that it reaches in which the updater knows fewer than
    -- 2^32 peers, `NeverPanics` holds, at whatever time, with whatever random draw and for whatever
    -- message to the updater.
    pub node-NeverPanics :
        {s : Node Name Os} (now : Instant) (millionth : ℕ) (interval : Duration)
        (input : UpdaterInput)
        → Reach n codec f api service_name d sockets s
        → BtreeMap.len s.updater.table < 2 ^ 32
        → NeverPanics now millionth interval input s
    node-NeverPanics {s} now millionth interval input r small =
        let i = Reach-Steady n codec f api service_name d sockets sane r in
        let a = Reach-Announcing n codec f api service_name d (Built-IsSound sane.built) r in
        record {
          guarded = i.running;
          sends_on =
              sends s now millionth s.mailbox i a
                (Reach-Answering n codec f api service_name d sockets r) a.mail;
          collects = gc_interval-HasDelay d.tau sane.short;
          updates_on = updater_goes now interval s.updater input small;
          timers_fire = i.live;
          aborted_fire = i.dead;
        }
