-- ===== src/Node/Knowing.antt =====
-- What the sender of a node knows of the size of the swarm.
use swarm_discovery.Prelude.{ℕ, ◌≡◌, inl, inr, refl, sym, ap, subst, ◌∙◌, List, [], ◌∷◌, ◌++◌}
use swarm_discovery.Std.BtreeMap
use swarm_discovery.Std.BtreeMap.{BtreeMap}
use swarm_discovery.Std.Float.{FloatOps}
use swarm_discovery.Std.Ord.{list_ord, nat_ord}
use swarm_discovery.Discoverer.{Discoverer}
use swarm_discovery.Dns.{NameApi, Codec}
use swarm_discovery.Guardian
use swarm_discovery.Guardian.Forwarding.{sent}
use swarm_discovery.Messages.{MdnsMsg, timeout, UpdaterInput}
use swarm_discovery.Receiver.Shape.{handle_msg-IsHeard}
use swarm_discovery.Sender.Machine
use swarm_discovery.Socket.{SocketApi, Sockets}
use swarm_discovery.Updater.{State}
use swarm_discovery.Node.Rounds.{IsGoing, handled-Round, size_after}
use swarm_discovery.Node.Starting.{begun-Started}
use swarm_discovery.Node.{
  Node, Step, call, guardian_round, receive, fire, fire_aborted, sender_round, updater_round,
  gc_fires, Reach, begin, next, sizes_sent,
}
use swarm_discovery.Node.Telling.{
  Known, Tells, Next, Tells-append, handle_input-Next, size_after-append, size_after-updates,
  size_after-heard, size_after-sent,
}

module _ {Name Os : Type 0} (n : NameApi Name) (codec : Codec Name) (f : FloatOps)
    (api : SocketApi Os) (service_name : Name) (d : Discoverer) where
  abbrev pub known_size : Node Name Os → ℕ
  known_size s = size_after s.sender.swarm_size s.mailbox

  record InformedIn (sender : Machine.State Name) (mailbox : List MdnsMsg) (st : State)
      (updates : List UpdaterInput) : Type 0 where
    pub going : IsGoing sender.phase
    pub tells : Tells st updates (size_after sender.swarm_size mailbox)

  abbrev Informed : Node Name Os → Type 0
  Informed s = InformedIn s.sender s.mailbox s.updater s.updates

  unchanged :
      (st : State) (updates : List UpdaterInput) (k : ℕ) (ms more : List MdnsMsg)
      → size_after (size_after k ms) more ≡ size_after k ms
      → Tells st updates (size_after k ms)
      → Tells st updates (size_after k (ms ++ more))
  unchanged st updates k ms more e h =
      subst (Tells st updates) (sym (size_after-append k ms more ∙ e)) h

  Step-Informed :
      {s t : Node Name Os} → Step n codec f api service_name d s t → Informed s → Informed t
  Step-Informed {s} (call input h b) i = i
  Step-Informed {s} (guardian_round actor input rest g e) i = record {
    going = i.going;
    tells =
        unchanged s.updater s.updates s.sender.swarm_size s.mailbox _
          (size_after-updates _ (sent (Guardian.handle_input api actor input s.guardian).1))
          i.tells;
  }
  Step-Informed {s} (receive now bytes from msg via h) i = record {
    going = i.going;
    tells =
        unchanged s.updater s.updates s.sender.swarm_size s.mailbox (msg ∷ [])
          (size_after-heard _ msg (handle_msg-IsHeard n codec now bytes service_name from msg h))
          i.tells;
  }
  Step-Informed {s} (fire before after delay count e) i = record {
    going = i.going;
    tells =
        unchanged s.updater s.updates s.sender.swarm_size s.mailbox (timeout count ∷ []) refl
          i.tells;
  }
  Step-Informed {s} (fire_aborted before after delay count e) i = record {
    going = i.going;
    tells =
        unchanged s.updater s.updates s.sender.swarm_size s.mailbox (timeout count ∷ []) refl
          i.tells;
  }
  Step-Informed {s} (sender_round now millionth msg rest st es draw e h) i =
      let round = handled-Round n f service_name _ msg s.sender st es h i.going in
      let same : known_size s ≡ size_after st.swarm_size rest =
        ap (size_after s.sender.swarm_size) e
        ∙ size_after-append s.sender.swarm_size (msg ∷ []) rest
        ∙ ap (λ k. size_after k rest) (sym round.sized) in
      record {
        going = round.going;
        tells =
            Tells-append s.updater s.updates _ _ (subst (Tells s.updater s.updates) same i.tells);
      }
  Step-Informed {s} (updater_round now input rest st es interval g e h) i =
      let after = subst (Next (known_size s) rest) h (
        handle_input-Next f d.tau d.phi interval now s.updater s.updates input rest (known_size s) e
          i.tells) in
      record {
        going = i.going;
        tells =
            subst (Tells st rest)
              (sym (
                size_after-append s.sender.swarm_size s.mailbox (sizes_sent es)
                ∙ size_after-sent (known_size s) es))
              after;
      }
  Step-Informed {s} (gc_fires k e) i = record {
    going = i.going;
    tells = Tells-append s.updater s.updates _ _ i.tells;
  }

  Reach-Informed :
      {sockets : Sockets} {s : Node Name Os}
      → Reach n codec f api service_name d sockets s
      → Informed s
  Reach-Informed (begin actor os env st es interval draw paced h) =
      let start = begun-Started n f service_name env d st es h in
      record {
        going = start.going;
        tells = (
          record { table_ordered = tt; subscribers_ordered = tt },
          inl (record {
            first = ([], start.subscribed);
            nobody = refl;
            first_count = start.first_count;
          }),
        );
      }
  Reach-Informed (next r step) = Step-Informed step (Reach-Informed r)

  -- In every state that a node reaches, the size of the swarm that the sender knows once it has
  -- handled the messages that wait for it is the number of the peers in the table of the updater,
  -- or 1 while that table is empty.
  pub sender_knows_size :
      {sockets : Sockets} {s : Node Name Os}
      → Reach n codec f api service_name d sockets s
      → Known (known_size s) (BtreeMap.len s.updater.table)
  sender_knows_size {s = s} r = known (Reach-Informed r).tells
    where
      known :
          Tells s.updater s.updates (known_size s)
          → Known (known_size s) (BtreeMap.len s.updater.table)
      known (v, inl b) = inr (b.first_count, b.nobody)
      known (v, inr a) = a.1
