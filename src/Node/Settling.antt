-- ===== src/Node/Settling.antt =====
-- A node that is given nothing new comes to rest, in whatever order its actors run.
use swarm_discovery.Prelude.{
  List, ℕ, suc, ◌+◌, ◌*◌, ◌≤◌, ◌<◌, refl, ap, subst, [], ◌∷◌, arith, map, All, All-append, length,
  inl,
}
use swarm_discovery.Std.BtreeMap
use swarm_discovery.Std.Float.{FloatOps}
use swarm_discovery.Std.Ord.{list_ord, nat_ord}
use swarm_discovery.Discoverer.{Discoverer}
use swarm_discovery.Dns.{NameApi, Codec}
use swarm_discovery.Guardian
use swarm_discovery.Guardian.Forwarding.{sent, handle_input-GoesOn}
use swarm_discovery.Messages.{
  MdnsMsg, UpdaterInput, query_v4, query_v6, response, timeout, size_update, update,
}
use swarm_discovery.Sender.Machine.{Phase}
use swarm_discovery.Socket.{SocketApi, Sockets}
use swarm_discovery.Updater
use swarm_discovery.Node.Load.{
  updates_load, mail_load, updates_load-append, mail_load-append, relayed_load, own_load, IsAlone,
  IsFromSender, Lightens, handle_input-Lightens,
}
use swarm_discovery.Node.Rounds.{IsGoing, handled-Round, relayed}
use swarm_discovery.Node.Starting.{begun-Started}
use swarm_discovery.Node.{
  Node, Step, call, guardian_round, receive, fire, fire_aborted, sender_round, updater_round,
  gc_fires, Reach, begin, next, to_updater, sizes_sent,
}

relayed-IsFromSender : (msg : MdnsMsg) → All IsFromSender (relayed msg)
relayed-IsFromSender (response m) = (tt, tt)
relayed-IsFromSender query_v4 = tt
relayed-IsFromSender query_v6 = tt
relayed-IsFromSender (timeout c) = tt
relayed-IsFromSender (size_update k) = tt
relayed-IsFromSender (update i) = tt

module _ {Name Os : Type 0} (n : NameApi Name) (codec : Codec Name) (f : FloatOps)
    (api : SocketApi Os) (service_name : Name) (d : Discoverer) where
  abbrev Steps : Node Name Os → Node Name Os → Type 0
  Steps s t = Step n codec f api service_name d s t

  abbrev Reached : Sockets → Node Name Os → Type 0
  Reached sockets s = Reach n codec f api service_name d sockets s

  -- The steps in which an actor handles a message.
  abbrev pub IsRound : {s t : Node Name Os} → Steps s t → Type 0
  IsRound (guardian_round actor input rest g e) = Unit
  IsRound (sender_round now millionth msg rest st es draw e h) = Unit
  IsRound (updater_round now input rest st es interval g e h) = Unit
  IsRound _ = ⊥

  -- A number of such steps.
  pub data Rounds (s : Node Name Os) : ℕ → Node Name Os → Type 0 where
    done : Rounds s 0 s
    more :
        {k : ℕ} {t u : Node Name Os}
        → Rounds s k t
        → (step : Steps t u) → IsRound step
        → Rounds s (suc k) u

  pub Rounds-Reach :
      {sockets : Sockets} {s t : Node Name Os} {k : ℕ}
      → Reached sockets s
      → Rounds s k t
      → Reached sockets t
  Rounds-Reach r done = r
  Rounds-Reach r (more rounds step h) = next (Rounds-Reach r rounds) step

  abbrev pub load : Node Name Os → ℕ
  load s = 2 * length s.inbox + mail_load s.mailbox + updates_load s.updates

  record AloneIn (phase : Phase) (st : Updater.State) (updates : List UpdaterInput) : Type 0 where
    pub going : IsGoing phase
    pub subscribed : IsAlone st
    pub waiting : All IsFromSender updates

  abbrev Alone : Node Name Os → Type 0
  Alone s = AloneIn s.sender.phase s.updater s.updates

  Step-Alone : {s t : Node Name Os} → Steps s t → Alone s → Alone t
  Step-Alone {s} (call input h b) i = i
  Step-Alone {s} (guardian_round actor input rest g e) i = i
  Step-Alone {s} (receive now bytes from msg via h) i = i
  Step-Alone {s} (fire before after delay count e) i = i
  Step-Alone {s} (fire_aborted before after delay count e) i = i
  Step-Alone {s} (sender_round now millionth msg rest st es draw e h) i =
      let round = handled-Round n f service_name _ msg s.sender st es h i.going in
      record {
        going = round.going;
        subscribed = i.subscribed;
        waiting =
            All-append IsFromSender s.updates (to_updater es) i.waiting
              (rw (round.handed) (relayed-IsFromSender msg));
      }
  Step-Alone {s} (updater_round now input rest st es interval g e h) i =
      let waiting = subst (All IsFromSender) e i.waiting in
      record {
        going = i.going;
        subscribed =
            (subst (Lightens (BtreeMap.len s.updater.table) input) h (
              handle_input-Lightens f d.tau d.phi interval now s.updater input i.subscribed
                waiting.0)).0;
        waiting = waiting.1;
      }
  Step-Alone {s} (gc_fires k e) i = record {
    going = i.going;
    subscribed = i.subscribed;
    waiting = All-append IsFromSender s.updates _ i.waiting (tt, tt);
  }

  Reach-Alone : {sockets : Sockets} {s : Node Name Os} → Reached sockets s → Alone s
  Reach-Alone (begin actor os env st es interval draw paced h) =
      let start = begun-Started n f service_name env d st es h in
      record {
        going = start.going;
        subscribed = inl refl;
        waiting = rw (start.subscribed) (refl, tt);
      }
  Reach-Alone (next r step) = Step-Alone step (Reach-Alone r)

  -- The work and the peers that are known.
  abbrev pub room : Node Name Os → ℕ
  room s = load s + BtreeMap.len s.updater.table

  round-lightens :
      {s t : Node Name Os} (step : Steps s t)
      → IsRound step
      → Alone s
      → (load t < load s) × (room t ≤ room s)
  round-lightens {s} (guardian_round actor input rest g e) h i =
      let handed : mail_load
            (map update (sent (Guardian.handle_input api actor input s.guardian).1))
          ≤ 1 =
        rw ((handle_input-GoesOn api actor input s.guardian g).1) (own_load input) in
      let lighter = ap length e in
      let appended =
        mail_load-append s.mailbox
          (map update (sent (Guardian.handle_input api actor input s.guardian).1)) in
      (omega (arith, lighter, handed, appended), omega (arith, lighter, handed, appended))
  round-lightens {s} (sender_round now millionth msg rest st es draw e q) h i =
      let round = handled-Round n f service_name _ msg s.sender st es q i.going in
      let taken = ap mail_load e in
      let lighter = relayed_load msg rest in
      let handed = ap updates_load round.handed in
      let appended = updates_load-append s.updates (to_updater es) in
      (
        omega (arith, taken, lighter, handed, appended),
        omega (arith, taken, lighter, handed, appended),
      )
  round-lightens {s} (updater_round now input rest st es interval g e q) h i =
      let waiting = subst (All IsFromSender) e i.waiting in
      let lighter =
        subst (Lightens (BtreeMap.len s.updater.table) input) q (
          handle_input-Lightens f d.tau d.phi interval now s.updater input i.subscribed
            waiting.0) in
      let taken = ap updates_load e in
      let split = updates_load-append (input ∷ []) rest in
      let appended = mail_load-append s.mailbox (sizes_sent es) in
      (
        omega (arith, taken, split, appended, lighter.1),
        omega (arith, taken, split, appended, lighter.2),
      )
  round-lightens {s} (call input p b) h i = absurd h
  round-lightens {s} (receive now bytes from msg via p) h i = absurd h
  round-lightens {s} (fire before after delay count e) h i = absurd h
  round-lightens {s} (fire_aborted before after delay count e) h i = absurd h
  round-lightens {s} (gc_fires k e) h i = absurd h

  -- Termination: from any state that a node reaches, without new packets, calls and timers, its actors
  -- handle at most `load` messages, which are counted from those that wait in the three mailboxes,
  -- whatever the order in which the actors run.
  pub rounds-Terminate :
      {sockets : Sockets} {s t : Node Name Os} {k : ℕ}
      → Reached sockets s
      → Rounds s k t
      → k + load t ≤ load s
  rounds-Terminate {s = s} r done = omega arith
  rounds-Terminate {s = s} r (more rounds step h) = omega (
    arith,
    rounds-Terminate r rounds,
    (round-lightens step h (Reach-Alone (Rounds-Reach r rounds))).0,
  )

  pub rounds_room :
      {sockets : Sockets} {s t : Node Name Os} {k : ℕ}
      → Reached sockets s
      → Rounds s k t
      → room t ≤ room s
  rounds_room {s = s} r done = omega arith
  rounds_room {s = s} r (more rounds step h) =
      omega (
        arith,
        rounds_room r rounds,
        (round-lightens step h (Reach-Alone (Rounds-Reach r rounds))).1,
      )
