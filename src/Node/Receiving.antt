-- ===== src/Node/Receiving.antt =====
-- The loop of a receiver, as steps of a node.
use swarm_discovery.Prelude.{
  ◌≡◌, refl, sym, ap, subst, List, [], ◌∷◌, ◌++◌, Option, none, some, All, append_assoc, append-nil,
}
use swarm_discovery.Std.Float.{FloatOps}
use swarm_discovery.Std.Outcome.{Outcome, ok, panic, ◌>>=◌}
use swarm_discovery.Discoverer.{Discoverer}
use swarm_discovery.Dns.{NameApi, Codec}
use swarm_discovery.Messages.{MdnsMsg}
use swarm_discovery.Receiver.{handle_msg}
use swarm_discovery.Receiver.Loop.{Received, datagram, recv_error, Status, send_some, receiver}
use swarm_discovery.Socket.{SocketApi, Sockets}
use swarm_discovery.Node.{Node, HasSocketFor, receive, Reach, next}

module _ {Name Os : Type 0} (n : NameApi Name) (codec : Codec Name) (f : FloatOps)
    (api : SocketApi Os) (service_name : Name) (d : Discoverer) (sockets : Sockets) where
  abbrev Reached : Node Name Os → Type 0
  Reached s = Reach n codec f api service_name d sockets s

  abbrev with_mail : Node Name Os → List MdnsMsg → Node Name Os
  with_mail s msgs = record s { mailbox = s.mailbox ++ msgs }

  -- The datagram comes in on a socket of its family.
  abbrev pub IsFor : Sockets → Received → Type 0
  IsFor sockets (datagram now msg addr) = HasSocketFor addr sockets
  IsFor sockets recv_error = Unit

  -- What a receiver has sent leads to a state of the node, if it did not panic.
  abbrev pub Delivers : Node Name Os → Outcome (List MdnsMsg × Status) → Type 0
  Delivers s (ok (msgs, status)) = Reached (record s { mailbox = s.mailbox ++ msgs })
  Delivers s panic = Unit

  no_mail : (s : Node Name Os) → with_mail s [] ≡ s
  no_mail s = ap (λ m. record s { mailbox = m }) (append-nil s.mailbox)

  -- From any state that a node reaches, a receiver that runs on any sequence of datagrams of the
  -- families of the node's sockets, to the end of the sequence or to its first error, takes the node
  -- to the state with its messages at the end of the mailbox of the sender; or it panics.
  pub receiver-Delivers :
      (inputs : List Received) (s : Node Name Os)
      → All (IsFor s.guardian.sockets) inputs
      → Reached s
      → Delivers s (receiver n codec service_name inputs)
  unfolding receiver
  receiver-Delivers [] s via r = subst Reached (sym (no_mail s)) r
  receiver-Delivers (recv_error ∷ rest) s via r = subst Reached (sym (no_mail s)) r
  receiver-Delivers (datagram now msg addr ∷ rest) s via r =
      handled (handle_msg n codec now msg service_name addr) refl
        (λ msgs h. receiver-Delivers rest (with_mail s msgs) via.1 h)
    where
      later :
          (m : MdnsMsg) (o : Outcome (List MdnsMsg × Status))
          → Delivers (with_mail s (m ∷ [])) o
          → Delivers s (o >>= λ p. ok (m ∷ p.0, p.1))
      later m (ok (msgs, status)) h =
          subst (λ mail. Reached (record s { mailbox = mail }))
            (append_assoc s.mailbox (m ∷ []) msgs) h
      later m panic h = tt

      skipped :
          (o : Outcome (List MdnsMsg × Status))
          → Delivers s o
          → Delivers s (o >>= λ p. ok (p.0, p.1))
      skipped (ok p) h = h
      skipped panic h = h

      handled :
          (o : Outcome (Option MdnsMsg))
          → handle_msg n codec now msg service_name addr ≡ o
          → ((msgs : List MdnsMsg)
              → Reached (with_mail s msgs)
              → Delivers (with_mail s msgs) (receiver n codec service_name rest))
          → Delivers s
              (o >>= λ m. receiver n codec service_name rest >>= λ p. ok (send_some m p.0, p.1))
      handled (ok none) e rec = skipped (receiver n codec service_name rest) (
          subst (λ t. Delivers t (receiver n codec service_name rest)) (no_mail s)
            (rec [] (subst Reached (sym (no_mail s)) r)))
      handled (ok (some m)) e rec =
          later m (receiver n codec service_name rest)
            (rec (m ∷ []) (next r (receive now msg addr m via.0 e)))
      handled panic e rec = tt
