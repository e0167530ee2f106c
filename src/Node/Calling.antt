-- ===== src/Node/Calling.antt =====
-- The calls on a guard, as steps of a node.
use swarm_discovery.Prelude.{
  ℕ, refl, sym, subst, List, [], ◌∷◌, ◌++◌, All, append_assoc, append-nil,
}
use swarm_discovery.Std.Float.{FloatOps}
use swarm_discovery.Discoverer.{Discoverer}
use swarm_discovery.Dns.{NameApi, Codec}
use swarm_discovery.Guard.{Call, make_all, of_task}
use swarm_discovery.Guard.Calls.{IsSendable, sent_by_all, make_all-drop}
use swarm_discovery.Messages.{GuardianInput}
use swarm_discovery.Sender.Ports.{AddsPorts}
use swarm_discovery.Socket.{SocketApi, Sockets}
use swarm_discovery.Node.{Node, call, Reach, next}

module _ {Name Os : Type 0} (n : NameApi Name) (codec : Codec Name) (f : FloatOps)
    (api : SocketApi Os) (service_name : Name) (d : Discoverer) (sockets : Sockets) where
  abbrev Reached : Node Name Os → Type 0
  Reached s = Reach n codec f api service_name d sockets s

  abbrev pub with_inbox : Node Name Os → List GuardianInput → Node Name Os
  with_inbox s inputs = record s { inbox = s.inbox ++ inputs }

  posted-Reached :
      (inputs : List GuardianInput) (s : Node Name Os)
      → All IsSendable inputs
      → All AddsPorts inputs
      → Reached s
      → Reached (with_inbox s inputs)
  posted-Reached [] s h b r =
      subst (λ inbox. Reached (record s { inbox = inbox })) (sym (append-nil s.inbox)) r
  posted-Reached (input ∷ inputs) s h b r =
      subst (λ inbox. Reached (record s { inbox = inbox }))
        (append_assoc s.inbox (input ∷ []) inputs)
        (posted-Reached inputs (with_inbox s (input ∷ [])) h.1 b.1 (next r (call input h.0 b.0)))

  -- Whatever calls are made on the guard that `spawn` returns, if the ports that they add are 16-bit numbers,
  -- what they send leads from a state that
  -- the node reaches to another that it reaches, with these inputs at the end of the inbox of its guardian.
  pub make_all-Reached :
      (calls : List Call) (task : ℕ) (s : Node Name Os)
      → All AddsPorts (sent_by_all calls)
      → Reached s
      → Reached (with_inbox s (make_all calls (of_task task)).outbox)
  make_all-Reached calls task s b r =
      let (outbox, sendable, _) = make_all-drop calls (of_task task) task refl in
      subst (λ inputs. Reached (with_inbox s inputs)) (sym outbox)
        (posted-Reached (sent_by_all calls) s sendable b r)
