-- ===== src/Node/Responding.antt =====
-- A node announces itself again and again, of its own accord.
use swarm_discovery.Prelude.{ℕ, ◌<◌, ◌^◌, ◌≡◌, refl, sym, ap, subst, ◌∙◌, List, [], ◌∷◌, arith}
use swarm_discovery.Std.BtreeMap
use swarm_discovery.Std.Float.{FloatOps}
use swarm_discovery.Std.Ord.{nat_ord}
use swarm_discovery.Std.Outcome.{ok}
use swarm_discovery.Std.Time.{Instant}
use swarm_discovery.Discoverer.{Discoverer}
use swarm_discovery.Dns.{NameApi, Codec}
use swarm_discovery.Messages.{MdnsMsg, timeout, gc}
use swarm_discovery.Peer.{Mode, any}
use swarm_discovery.Sender.Machine.{
  Phase, querying, responding, stopped, State, Effect, message, dispatch,
}
use swarm_discovery.Sender.Response.{make_query}
use swarm_discovery.Sender.Traces.{Ensures, packets}
use swarm_discovery.Socket.{SocketApi, Sockets}
use swarm_discovery.Node.ByItself.{
  ByItself, here, and_then, Rounds-ByItself, ByItself-Reach, Reached-Fires, trans,
}
use swarm_discovery.Node.Firing.{packet_of, Asks, Answers, querying-Asks, responding-Answers}
use swarm_discovery.Node.Progress.{HandlesFirst, node-NeverPanics}
use swarm_discovery.Node.Resting.{node-Settles}
use swarm_discovery.Node.Rounds.{IsGoing}
use swarm_discovery.Node.Sane.{IsSane, env_of}
use swarm_discovery.Node.Settling.{room, rounds_room}
use swarm_discovery.Node.Waiting.{sender-IsAwaited}
use swarm_discovery.Node.{Node, sender_round, Reach}

module _ {Name Os : Type 0} (n : NameApi Name) (codec : Codec Name) (f : FloatOps)
    (api : SocketApi Os) (service_name : Name) (d : Discoverer) (sockets : Sockets) where
  abbrev Reached : Node Name Os → Type 0
  Reached s = Reach n codec f api service_name d sockets s

  abbrev Moves : Node Name Os → Node Name Os → Type 0
  Moves s t = ByItself n codec f api service_name d sockets s t

  -- The message of a timer is the first for the sender, which, at this time and with this random draw,
  -- sends the response of the node when it handles it, if there is one, and then waits again to ask.
  pub record Responds (now : Instant) (millionth : ℕ) (t : Node Name Os) : Type 0 where
    pub mode : Mode
    pub count : ℕ
    pub waits : t.mailbox ≡ timeout count ∷ []
    pub result : State Name
    pub effects : List (Effect Name)
    pub handled :
        dispatch n f service_name
          (env_of codec t now millionth)
          t.sender.phase
          (message (timeout count))
          t.sender
        ≡ ok (result, effects)
    pub answered : packets effects ≡ packet_of t.sender.response_msg mode
    pub asks_again : result.phase ≡ querying

  module _ (sane : IsSane n f service_name d sockets) where
    abbrev IsSmall : Node Name Os → Type 0
    IsSmall s = BtreeMap.len s.updater.table < 2 ^ 32

    first_handled :
        (s : Node Name Os) (now : Instant) (millionth : ℕ) (msg : MdnsMsg)
        → millionth < 1_000_000
        → Reached s
        → IsSmall s
        → s.mailbox ≡ msg ∷ []
        → HandlesFirst n codec f api service_name d s now millionth (msg ∷ [])
    first_handled s now millionth msg draw r small e =
        let never =
          node-NeverPanics n codec f api service_name d sockets sane now millionth 0 gc r small in
        subst (HandlesFirst n codec f api service_name d s now millionth) e never.sends_on

    -- A node that responds next.
    answering :
        (t : Node Name Os) (now : Instant) (millionth : ℕ) (mode : Mode) (heard : ℕ)
        → millionth < 1_000_000
        → Reached t
        → IsSmall t
        → t.mailbox ≡ timeout t.sender.timeout_count ∷ []
        → t.sender.phase ≡ responding mode heard
        → Responds now millionth t
    answering t now millionth mode heard draw r small waits phase =
        let (st, es, e) =
          first_handled t now millionth (timeout t.sender.timeout_count) draw r small waits in
        let answers =
          subst (Ensures (Answers mode t.sender))
            (ap
                (λ p.
                  dispatch n f service_name (env_of codec t now millionth) p
                    (message (timeout t.sender.timeout_count)) t.sender)
                (sym phase)
              ∙ e)
            (responding-Answers n f service_name (env_of codec t now millionth) t.sender mode
              heard) in
        record {
          mode = mode;
          count = t.sender.timeout_count;
          waits = waits;
          result = st;
          effects = es;
          handled = e;
          answered = answers.1;
          asks_again = answers.0;
        }

    abbrev Asked : Node Name Os → Type 0
    Asked s =
        (t : Node Name Os) × (Moves s t)
        × (t.mailbox ≡ [])
        × (t.updater ≡ s.updater)
        × (t.sender.phase ≡ responding any 0)

    -- A node whose timer has fired while it waited for a query asks.
    asking :
        (t : Node Name Os)
        → Reached t
        → IsSmall t
        → t.mailbox ≡ timeout t.sender.timeout_count ∷ []
        → t.sender.phase ≡ querying
        → Asked t
    asking t r small waits phase =
        let (st, es, e) =
          first_handled t 0 0 (timeout t.sender.timeout_count) (omega arith) r small waits in
        let asks =
          subst (Ensures (Asks (make_query service_name) t.sender))
            (ap
                (λ p.
                  dispatch n f service_name (env_of codec t 0 0) p
                    (message (timeout t.sender.timeout_count)) t.sender)
                (sym phase)
              ∙ e)
            (querying-Asks n f service_name (env_of codec t 0 0) t.sender) in
        (
          _,
          and_then here
              (sender_round 0 0 (timeout t.sender.timeout_count) [] st es (omega arith) waits e) tt,
          refl,
          refl,
          asks.0,
        )

    abbrev pub Announces : Instant → ℕ → Node Name Os → Type 0
    Announces now millionth s = (t : Node Name Os) × (Moves s t) × Responds now millionth t

    responding_next :
        (s : Node Name Os) (now : Instant) (millionth : ℕ) (mode : Mode) (heard : ℕ)
        → millionth < 1_000_000
        → Reached s
        → IsSmall s
        → s.mailbox ≡ []
        → s.sender.phase ≡ responding mode heard
        → Announces now millionth s
    responding_next s now millionth mode heard draw r small quiet phase =
        let (t, moves, same, table, waits) =
          Reached-Fires n codec f api service_name d sockets sane s r quiet in
        (
          t,
          moves,
          answering t now millionth mode heard draw
              (ByItself-Reach n codec f api service_name d sockets r moves) (rw table small)
              (rw same waits) (rw same phase),
        )

    querying_next :
        (s : Node Name Os) (now : Instant) (millionth : ℕ)
        → millionth < 1_000_000
        → Reached s
        → IsSmall s
        → s.mailbox ≡ []
        → s.sender.phase ≡ querying
        → Announces now millionth s
    querying_next s now millionth draw r small quiet phase =
        let (t, moves, same, table, waits) =
          Reached-Fires n codec f api service_name d sockets sane s r quiet in
        let reached = ByItself-Reach n codec f api service_name d sockets r moves in
        let small_then : IsSmall t = rw table small in
        let (u, more_moves, empty, kept, asked) =
          asking t reached small_then (rw same waits) (rw same phase) in
        let (v, last_moves, responds) =
          responding_next u now millionth any 0 draw
            (ByItself-Reach n codec f api service_name d sockets reached more_moves)
            (rw kept small_then) empty asked in
        (
          v,
          trans n codec f api service_name d sockets moves
              (trans n codec f api service_name d sockets more_moves last_moves),
          responds,
        )

    -- Liveness: let a sane node be in a state that it reaches, and let its `room`, which is counted from
    -- the messages that wait and the peers that it knows, be below 2^32. Without any packet or call, its
    -- actors and its timer can lead to a state in which the next round of the sender, at any given time
    -- and with any given random draw, sends the response of the node as it then is, if there is one, and
    -- after which the sender waits again to ask.
    pub node-Announces_again :
        {s : Node Name Os} (now : Instant) (millionth : ℕ)
        → millionth < 1_000_000
        → Reached s
        → room n codec f api service_name d s < 2 ^ 32
        → Announces now millionth s
    node-Announces_again {s} now millionth draw r small =
        let (k, t, rounds, rest) =
          (node-Settles n codec f api service_name d sockets sane r small).0 in
        let moves = Rounds-ByItself n codec f api service_name d sockets rounds in
        let reached = ByItself-Reach n codec f api service_name d sockets r moves in
        let small_then : IsSmall t =
          omega (arith, small, rounds_room n codec f api service_name d r rounds) in
        let (u, more_moves, responds) =
          in_phase t reached small_then rest.1 t.sender.phase refl
            (sender-IsAwaited n codec f api service_name d reached).0 in
        (u, trans n codec f api service_name d sockets moves more_moves, responds)
      where
        in_phase :
            (t : Node Name Os)
            → Reached t
            → IsSmall t
            → t.mailbox ≡ []
            → (phase : Phase) → t.sender.phase ≡ phase
            → IsGoing t.sender.phase
            → Announces now millionth t
        in_phase t reached fits quiet querying e g =
            querying_next t now millionth draw reached fits quiet e
        in_phase t reached fits quiet (responding mode heard) e g =
            responding_next t now millionth mode heard draw reached fits quiet e
        in_phase t reached fits quiet stopped e g = absurd (subst IsGoing e g)
