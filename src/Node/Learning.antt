-- ===== src/Node/Learning.antt =====
-- What a node learns from a packet, in whatever order its actors run.
use swarm_discovery.Prelude.{ℕ, ◌≡◌, sym, ◌∙◌, List, [], ◌∷◌, ◌++◌}
use swarm_discovery.Std.BtreeMap.{BtreeMap}
use swarm_discovery.Std.Float.{FloatOps}
use swarm_discovery.Std.Ord.{list_ord, nat_ord}
use swarm_discovery.Std.Text.{Str}
use swarm_discovery.Discoverer.{Discoverer}
use swarm_discovery.Dns.{NameApi, Codec}
use swarm_discovery.Guardian
use swarm_discovery.Guardian.Forwarding.{sent}
use swarm_discovery.Messages.{MdnsMsg, response, UpdaterInput, peers}
use swarm_discovery.Peer.{Peer}
use swarm_discovery.Socket.{SocketApi, Sockets}
use swarm_discovery.Updater
use swarm_discovery.Updater.{insert_peers, handle_input}
use swarm_discovery.Node.Resting.{IsAtRest}
use swarm_discovery.Node.Rounds.{handled-Round}
use swarm_discovery.Node.Settling.{IsRound, Rounds, done, more, Rounds-Reach}
use swarm_discovery.Node.Waiting.{sender-IsAwaited}
use swarm_discovery.Node.{
  Node, Step, call, guardian_round, receive, fire, fire_aborted, sender_round, updater_round,
  gc_fires, Reach, sizes_sent,
}
use swarm_discovery.Node.Pending.{
  updates-IsQuiet, sizes-IsQuiet, Learning, in_mailbox, in_updates, in_table, with_mail,
  sender_takes, updater_takes,
}

module _ {Name Os : Type 0} (n : NameApi Name) (codec : Codec Name) (f : FloatOps)
    (api : SocketApi Os) (service_name : Name) (d : Discoverer) (sockets : Sockets)
    (m : BtreeMap Str Peer) (Learnt : Updater.State → Type 0)
    (learns : (st : Updater.State) → Learnt (insert_peers m st).0) where
  abbrev IsLearning : Node Name Os → Type 0
  IsLearning s = Learning m Learnt s.mailbox s.updates s.updater

  Step-Learning :
      {s t : Node Name Os} (step : Step n codec f api service_name d s t)
      → Reach n codec f api service_name d sockets s
      → IsRound n codec f api service_name d step
      → IsLearning s
      → IsLearning t
  Step-Learning {s} (guardian_round actor input rest g e) r h l =
      with_mail m Learnt s.mailbox _ s.updates s.updater
        (updates-IsQuiet (sent (Guardian.handle_input api actor input s.guardian).1)) l
  Step-Learning {s} (sender_round now millionth msg rest st es draw e q) r h l =
      let going = (sender-IsAwaited n codec f api service_name d r).0 in
      let round = handled-Round n f service_name _ msg s.sender st es q going in
      rw (round.handed) (sender_takes m Learnt msg s.mailbox rest s.updates s.updater e l)
  Step-Learning {s} (updater_round now input rest st es interval g e q) r h l =
      with_mail m Learnt s.mailbox (sizes_sent es) rest st (sizes-IsQuiet es) (
        updater_takes m Learnt f d learns now interval input s.updates rest s.mailbox s.updater st
          es q e l)
  Step-Learning {s} (call input p b) r h l = absurd h
  Step-Learning {s} (receive now bytes from msg via p) r h l = absurd h
  Step-Learning {s} (fire before after delay count e) r h l = absurd h
  Step-Learning {s} (fire_aborted before after delay count e) r h l = absurd h
  Step-Learning {s} (gc_fires k e) r h l = absurd h

  Rounds-Learning :
      {s t : Node Name Os} {k : ℕ}
      → Reach n codec f api service_name d sockets s
      → Rounds n codec f api service_name d s k t
      → IsLearning s
      → IsLearning t
  Rounds-Learning r done l = l
  Rounds-Learning r (more rounds step h) l =
      Step-Learning step (Rounds-Reach n codec f api service_name d r rounds) h
        (Rounds-Learning r rounds l)

  at_last : (t : Node Name Os) → IsAtRest t → IsLearning t → Learnt t.updater
  at_last t rest (in_mailbox front back e q) =
      let never : ⊥ = somewhere front (sym rest.1 ∙ e) in absurd never
    where
      somewhere : (front : List MdnsMsg) → [] ≡ front ++ response m ∷ back → ⊥
      somewhere [] p = cc p
      somewhere (x ∷ xs) p = cc p
  at_last t rest (in_updates front e q) =
      let never : ⊥ = somewhere front (sym rest.2 ∙ e) in absurd never
    where
      somewhere : (front : List UpdaterInput) → [] ≡ front ++ peers m ∷ [] → ⊥
      somewhere [] p = cc p
      somewhere (x ∷ xs) p = cc p
  at_last t rest (in_table e q l) = l

  -- A response that has come in last: when the node has come to rest, the updater has taken it in last.
  pub response-Learnt :
      {s t : Node Name Os} {k : ℕ} (before : List MdnsMsg)
      → Reach n codec f api service_name d sockets s
      → s.mailbox ≡ before ++ response m ∷ []
      → Rounds n codec f api service_name d s k t
      → IsAtRest t
      → Learnt t.updater
  response-Learnt {t = t} before r e rounds rest =
      at_last t rest (Rounds-Learning r rounds (in_mailbox before [] e tt))
