-- ===== src/Node/ByItself.antt =====
-- What a node does by itself: its actors run, and the timer of its sender fires.
use swarm_discovery.Prelude.{ℕ, ◌≡◌, refl, ap, subst, [], ◌∷◌, ◌++◌, inl, inr, ◌⊎◌, All}
use swarm_discovery.Std.Float.{FloatOps}
use swarm_discovery.Std.Ord.{nat_ord}
use swarm_discovery.Discoverer.{Discoverer}
use swarm_discovery.Dns.{NameApi, Codec}
use swarm_discovery.Messages.{timeout}
use swarm_discovery.Socket.{SocketApi, Sockets}
use swarm_discovery.Node.Clocks.{find_timer}
use swarm_discovery.Node.Sane.{IsSane}
use swarm_discovery.Node.Settling.{IsRound, Rounds, done, more}
use swarm_discovery.Node.Clocks.{CanFire}
use swarm_discovery.Node.Staying.{Reach-Steady}
use swarm_discovery.Node.Rounds.{IsGoing}
use swarm_discovery.Node.Waiting.{sender-IsAwaited, Runs, Fired, Fired-last}
use swarm_discovery.Node.{
  Node, Step, call, guardian_round, receive, fire, fire_aborted, sender_round, updater_round,
  gc_fires, Reach, next,
}

module _ {Name Os : Type 0} (n : NameApi Name) (codec : Codec Name) (f : FloatOps)
    (api : SocketApi Os) (service_name : Name) (d : Discoverer) (sockets : Sockets) where
  abbrev Reached : Node Name Os → Type 0
  Reached s = Reach n codec f api service_name d sockets s

  abbrev Steps : Node Name Os → Node Name Os → Type 0
  Steps s t = Step n codec f api service_name d s t

  -- The steps that take neither packets nor calls: an actor handles a message, or the sender's timer
  -- fires.
  abbrev pub IsOwn : {s t : Node Name Os} → Steps s t → Type 0
  IsOwn (fire before after delay count e) = Unit
  IsOwn (guardian_round actor input rest g e) = Unit
  IsOwn (sender_round now millionth msg rest st es draw e h) = Unit
  IsOwn (updater_round now input rest st es interval g e h) = Unit
  IsOwn _ = ⊥

  -- A number of such steps.
  pub data ByItself (s : Node Name Os) : Node Name Os → Type 0 where
    here : ByItself s s
    and_then : {t u : Node Name Os} → ByItself s t → (step : Steps t u) → IsOwn step → ByItself s u

  round-IsOwn :
      {s t : Node Name Os} (step : Steps s t)
      → IsRound n codec f api service_name d step
      → IsOwn step
  round-IsOwn (call input p b) h = absurd h
  round-IsOwn (guardian_round actor input rest g e) h = tt
  round-IsOwn (receive now bytes from msg via p) h = absurd h
  round-IsOwn (fire before after delay count e) h = tt
  round-IsOwn (fire_aborted before after delay count e) h = absurd h
  round-IsOwn (sender_round now millionth msg rest st es draw e q) h = tt
  round-IsOwn (updater_round now input rest st es interval g e q) h = tt
  round-IsOwn (gc_fires k e) h = absurd h

  pub Rounds-ByItself :
      {s t : Node Name Os} {k : ℕ} → Rounds n codec f api service_name d s k t → ByItself s t
  Rounds-ByItself done = here
  Rounds-ByItself (more rounds step h) = and_then (Rounds-ByItself rounds) step (round-IsOwn step h)

  pub ByItself-Reach : {s t : Node Name Os} → Reached s → ByItself s t → Reached t
  ByItself-Reach r here = r
  ByItself-Reach r (and_then moves step h) = next (ByItself-Reach r moves) step

  pub trans : {s t u : Node Name Os} → ByItself s t → ByItself t u → ByItself s u
  trans moves here = moves
  trans moves (and_then more_moves step h) = and_then (trans moves more_moves) step h

  module _ (sane : IsSane n f service_name d sockets) where
    -- The timer of the phase fires.
    abbrev pub Fires : Node Name Os → Type 0
    Fires s =
        (t : Node Name Os) × (ByItself s t)
        × (t.sender ≡ s.sender)
        × (t.updater ≡ s.updater)
        × (t.mailbox ≡ timeout s.sender.timeout_count ∷ [])

    -- The sender is in one of its phases, and the message of the timer of this phase waits, at once or
    -- after steps of its own that leave the sender as it is.
    abbrev pub CanEnd : Node Name Os → Type 0
    CanEnd s =
        IsGoing s.sender.phase
        × (t : Node Name Os) × (ByItself s t)
        × (t.sender ≡ s.sender)
        × Fired s.sender.timeout_count t.mailbox

    -- No deadlock: let a sane node be in any state that it reaches, whatever waits in its mailboxes.
    -- Its sender is in one of its two phases, and without any packet or call the node can come, its
    -- sender unchanged, to a state in which the message that ends this phase waits in the sender's
    -- mailbox.
    pub sender-CanEnd : {s : Node Name Os} → Reached s → CanEnd s
    sender-CanEnd {s} r =
        let live = (Reach-Steady n codec f api service_name d sockets sane r).live in
        let awaited = sender-IsAwaited n codec f api service_name d r in
        let (t, moves, same, waits) = ends awaited.1 live in (awaited.0, t, moves, same, waits)
      where
        ends :
            Runs s.sender.timeout_count s.timers ⊎ Fired s.sender.timeout_count s.mailbox
            → All CanFire s.timers
            → (t : Node Name Os) × (ByItself s t)
              × (t.sender ≡ s.sender)
              × Fired s.sender.timeout_count t.mailbox
        ends (inl runs) live =
            let (before, after, delay, e) = find_timer s.sender.timeout_count s.timers runs live in
            (
              _,
              and_then here (fire before after delay s.sender.timeout_count e) tt,
              refl,
              Fired-last s.sender.timeout_count s.mailbox,
            )
        ends (inr waits) live = (s, here, refl, waits)

    pub Reached-Fires : (s : Node Name Os) → Reached s → s.mailbox ≡ [] → Fires s
    Reached-Fires s r quiet =
        let live = (Reach-Steady n codec f api service_name d sockets sane r).live in
        fires (sender-IsAwaited n codec f api service_name d r).1 live
      where
        fires :
            Runs s.sender.timeout_count s.timers ⊎ Fired s.sender.timeout_count s.mailbox
            → All CanFire s.timers
            → Fires s
        fires (inl runs) live =
            let (before, after, delay, e) = find_timer s.sender.timeout_count s.timers runs live in
            (
              _,
              and_then here (fire before after delay s.sender.timeout_count e) tt,
              refl,
              refl,
              ap (λ ms. ms ++ timeout s.sender.timeout_count ∷ []) quiet,
            )
        fires (inr waits) live = absurd (subst (Fired s.sender.timeout_count) quiet waits)
