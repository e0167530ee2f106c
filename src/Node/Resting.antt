-- ===== src/Node/Resting.antt =====
-- A sane node that is given nothing new comes to rest.
use swarm_discovery.Prelude.{
  ℕ, zero, suc, ◌+◌, ◌<◌, ◌^◌, ◌≡◌, ◌⊎◌, inl, inr, refl, subst, List, [], ◌∷◌, arith,
}
use swarm_discovery.Std.BtreeMap
use swarm_discovery.Std.Float.{FloatOps}
use swarm_discovery.Std.Time.{Duration}
use swarm_discovery.Discoverer.{Discoverer}
use swarm_discovery.Dns.{NameApi, Codec}
use swarm_discovery.Messages.{UpdaterInput, gc}
use swarm_discovery.Socket.{SocketApi, Sockets}
use swarm_discovery.Node.Progress.{HandlesFirst, node-NeverPanics}
use swarm_discovery.Node.Sane.{IsSane}
use swarm_discovery.Node.Settling.{
  IsRound, Rounds, done, more, Rounds-Reach, load, rounds-Terminate, room, rounds_room,
}
use swarm_discovery.Node.{Node, Step, guardian_round, sender_round, updater_round, Reach}

-- No message waits.
abbrev pub IsAtRest : {Name Os : Type 0} → Node Name Os → Type 0
IsAtRest s = (s.inbox ≡ []) × (s.mailbox ≡ []) × (s.updates ≡ [])

nil_or_cons : {A : Type 0} (xs : List A) → (xs ≡ []) ⊎ ((x : A) × (rest : List A) × (xs ≡ x ∷ rest))
nil_or_cons [] = inl refl
nil_or_cons (x ∷ xs) = inr (x, xs, refl)

module _ {Name Os : Type 0} (n : NameApi Name) (codec : Codec Name) (f : FloatOps)
    (api : SocketApi Os) (service_name : Name) (d : Discoverer) (sockets : Sockets)
    (sane : IsSane n f service_name d sockets) where
  abbrev Reached : Node Name Os → Type 0
  Reached s = Reach n codec f api service_name d sockets s

  abbrev pub Goes : Node Name Os → Type 0
  Goes s =
      (t : Node Name Os) × (step : Step n codec f api service_name d s t) × IsRound n codec f api
        service_name d step

  round_or_rest :
      (s : Node Name Os) → Reached s → BtreeMap.len s.updater.table < 2 ^ 32 → Goes s ⊎ IsAtRest s
  round_or_rest s r small =
      let never = λ (interval : Duration) (input : UpdaterInput).
        node-NeverPanics n codec f api service_name d sockets sane 0 0 interval input r small in
      elim (nil_or_cons s.inbox) [
        | inr (input, rest, e) ↦ inl (_, guardian_round 0 input rest (never 0 gc).guarded e, tt)
        | inl no_call ↦ elim (nil_or_cons s.mailbox) [
          | inr (msg, rest, e) ↦
              let (st, es, q) =
                subst (HandlesFirst n codec f api service_name d s 0 0) e (never 0 gc).sends_on in
              inl (_, sender_round 0 0 msg rest st es (omega arith) e q, tt)
          | inl no_mail ↦ elim (nil_or_cons s.updates) [
            | inr (input, rest, e) ↦
                let (interval, g) = (never 0 gc).collects in
                let (st, es, q) = (never interval input).updates_on in
                inl (_, updater_round 0 input rest st es interval g e q, tt)
            | inl no_update ↦ inr (no_call, no_mail, no_update)
          ]
        ]
      ]

  abbrev pub Settles : Node Name Os → Type 0
  Settles s = (k : ℕ) × (t : Node Name Os) × Rounds n codec f api service_name d s k t × IsAtRest t

  settled :
      (fuel k : ℕ) (s t : Node Name Os)
      → Reached s
      → Rounds n codec f api service_name d s k t
      → load n codec f api service_name d s < k + fuel
      → room n codec f api service_name d s < 2 ^ 32
      → Settles s
  settled zero k s t r rounds h small =
      let never : ⊥ = omega (arith, h, rounds-Terminate n codec f api service_name d r rounds) in
      absurd never
  settled (suc fuel) k s t r rounds h small =
      elim (round_or_rest t (Rounds-Reach n codec f api service_name d r rounds)
        (omega (arith, small, rounds_room n codec f api service_name d r rounds))) [
          | inl (u, step, q) ↦
              settled fuel (suc k) s u r (more rounds step q) (omega (arith, h)) small
          | inr rest ↦ (k, t, rounds, rest)
        ]

  -- Let a sane node be in a state that it reaches, and its `room`, which is counted from the messages
  -- that wait and the peers that it knows, be below 2^32. Given nothing new, it comes to rest: when its
  -- actors have handled some messages, in some order, none waits; and as long as one waits, one of the
  -- actors can handle a message.
  pub node-Settles :
      {s : Node Name Os}
      → Reached s
      → room n codec f api service_name d s < 2 ^ 32
      → Settles s × (Goes s ⊎ IsAtRest s)
  node-Settles {s} r small = (
    settled (suc (load n codec f api service_name d s)) 0 s s r done (omega arith) small,
    round_or_rest s r (omega (arith, small)),
  )
