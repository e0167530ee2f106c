-- ===== src/Node/Mirror.antt =====
-- What the application knows of the peers, in a whole node.
use swarm_discovery.Prelude.{
  ℕ, ◌≡◌, refl, ap, subst, ◌∙◌, List, [], ◌∷◌, some, ◌==◌, All, All-append, map, if_both,
}
use swarm_discovery.Std.BtreeMap.{BtreeMap}
use swarm_discovery.Std.BtreeMap.Laws.{AllValues}
use swarm_discovery.Std.Float.{FloatOps}
use swarm_discovery.Std.Net.{IpAddr}
use swarm_discovery.Std.Ord.{list_ord, nat_ord}
use swarm_discovery.Std.Outcome.{ok}
use swarm_discovery.Std.Text.{Str}
use swarm_discovery.Std.Time.{Instant}
use swarm_discovery.Discoverer.{Discoverer}
use swarm_discovery.Dns.{NameApi, Codec}
use swarm_discovery.Messages.{
  GuardianInput, MdnsMsg, query_v4, query_v6, response, timeout, size_update, update, gc,
}
use swarm_discovery.Peer.{Peer}
use swarm_discovery.Receiver.{handle_msg}
use swarm_discovery.Receiver.Shape.{IsObserved, handle_msg-IsObserved}
use swarm_discovery.Sender.Machine
use swarm_discovery.Sender.Machine.{
  start_timer, abort_timer, send_packet, send_peers, subscribe_size, Environment, message, dispatch,
}
use swarm_discovery.Socket.{SocketApi, Sockets}
use swarm_discovery.Updater
use swarm_discovery.Updater.Callbacks.{replay, AreFound, FoundInput, handle_input-Mirrors, Mirrors}
use swarm_discovery.Updater.Sizes.{IsValid}
use swarm_discovery.Guardian
use swarm_discovery.Node.Rounds.{IsGoing, handled-Round, relayed}
use swarm_discovery.Node.Starting.{begun-Started}
use swarm_discovery.Node.{
  sender_ref, Node, Step, call, guardian_round, receive, fire, fire_aborted, sender_round,
  updater_round, gc_fires, Reach, begin, next, to_updater, sizes_sent, started,
}

-- A response holds peers with addresses only.
abbrev pub FoundMsg : MdnsMsg → Type 0
FoundMsg (response m) = AreFound m
FoundMsg _ = Unit

updates_found : (inputs : List GuardianInput) → All FoundMsg (map update inputs)
updates_found [] = tt
updates_found (input ∷ inputs) = (tt, updates_found inputs)

sizes_found : (es : List Updater.Effect) → All FoundMsg (sizes_sent es)
sizes_found [] = tt
sizes_found (Updater.callback id p ∷ es) = sizes_found es
sizes_found (Updater.send sub size ∷ es) =
    let others = sizes_found es in
    if_both (All FoundMsg) (sub == sender_ref) {x = size_update size ∷ sizes_sent es} (tt, others)
      others
sizes_found (Updater.start_gc t ∷ es) = sizes_found es

AreFound-observed :
    (now : Instant) (m : BtreeMap Str Peer) → AllValues (IsObserved now) m → AreFound m
AreFound-observed now [] h = tt
AreFound-observed now ((id, p) ∷ m) h = (h.0.found, AreFound-observed now m h.1)

relayed_found : (msg : MdnsMsg) → FoundMsg msg → All FoundInput (relayed msg)
relayed_found (response m) h = (h, tt)
relayed_found query_v4 h = tt
relayed_found query_v6 h = tt
relayed_found (timeout c) h = tt
relayed_found (size_update k) h = tt
relayed_found (update i) h = tt

module _ {Name Os : Type 0} (n : NameApi Name) (codec : Codec Name) (f : FloatOps)
    (api : SocketApi Os) (service_name : Name) (d : Discoverer) where
  received_found :
      (now : Instant) (bytes : List ℕ) (from : IpAddr) (msg : MdnsMsg)
      → handle_msg n codec now bytes service_name from ≡ ok (some msg)
      → FoundMsg msg
  received_found now bytes from (response m) h =
      AreFound-observed now m (handle_msg-IsObserved n codec now bytes service_name from m h).1
  received_found now bytes from query_v4 h = tt
  received_found now bytes from query_v6 h = tt
  received_found now bytes from (timeout c) h = tt
  received_found now bytes from (size_update k) h = tt
  received_found now bytes from (update i) h = tt

  record Mirroring (s : Node Name Os) : Type 0 where
    pub going : IsGoing s.sender.phase
    pub mail : All FoundMsg s.mailbox
    pub waiting : All FoundInput s.updates
    pub valid : IsValid s.updater
    pub same : s.app ≡ s.updater.table

  Step-Mirroring :
      {s t : Node Name Os} → Step n codec f api service_name d s t → Mirroring s → Mirroring t
  Step-Mirroring {s} (call input h b) i = record {
    going = i.going;
    mail = i.mail;
    waiting = i.waiting;
    valid = i.valid;
    same = i.same;
  }
  Step-Mirroring {s} (guardian_round actor input rest g e) i = record {
    going = i.going;
    mail = All-append FoundMsg s.mailbox _ i.mail (updates_found _);
    waiting = i.waiting;
    valid = i.valid;
    same = i.same;
  }
  Step-Mirroring {s} (receive now bytes from msg via h) i = record {
    going = i.going;
    mail =
        All-append FoundMsg s.mailbox (msg ∷ []) i.mail (received_found now bytes from msg h, tt);
    waiting = i.waiting;
    valid = i.valid;
    same = i.same;
  }
  Step-Mirroring {s} (fire before after delay count e) i = record {
    going = i.going;
    mail = All-append FoundMsg s.mailbox (timeout count ∷ []) i.mail (tt, tt);
    waiting = i.waiting;
    valid = i.valid;
    same = i.same;
  }
  Step-Mirroring {s} (fire_aborted before after delay count e) i = record {
    going = i.going;
    mail = All-append FoundMsg s.mailbox (timeout count ∷ []) i.mail (tt, tt);
    waiting = i.waiting;
    valid = i.valid;
    same = i.same;
  }
  Step-Mirroring {s} (sender_round now millionth msg rest st es draw e h) i =
      let round = handled-Round n f service_name _ msg s.sender st es h i.going in
      let found = subst (All FoundMsg) e i.mail in
      record {
        going = round.going;
        mail = found.1;
        waiting =
            All-append FoundInput s.updates (to_updater es) i.waiting
              (rw round.handed (relayed_found msg found.0));
        valid = i.valid;
        same = i.same;
      }
  Step-Mirroring {s} (updater_round now input rest st es interval g e h) i =
      let found = subst (All FoundInput) e i.waiting in
      let kept =
        subst (Mirrors s.updater.table) h
          (handle_input-Mirrors f d.tau d.phi interval now s.updater input i.valid found.0) in
      record {
        going = i.going;
        mail = All-append FoundMsg s.mailbox (sizes_sent es) i.mail (sizes_found es);
        waiting = found.1;
        valid = kept.0;
        same = ap (replay es) i.same ∙ kept.1;
      }
  Step-Mirroring {s} (gc_fires k e) i = record {
    going = i.going;
    mail = i.mail;
    waiting = All-append FoundInput s.updates (gc ∷ []) i.waiting (tt, tt);
    valid = i.valid;
    same = i.same;
  }

  start-Mirroring :
      (g : Guardian.State Os) (env : Environment Name) (st : Machine.State Name)
      (es : List (Machine.Effect Name))
      → Machine.start n f service_name env d ≡ ok (st, es)
      → Mirroring (started n codec f api service_name d g st es)
  start-Mirroring g env st es h =
      let start = begun-Started n f service_name env d st es h in
      record {
        going = start.going;
        mail = tt;
        waiting = rw start.subscribed (tt, tt);
        valid = record { table_ordered = tt; subscribers_ordered = tt };
        same = refl;
      }

  Reach-Mirroring :
      {sockets : Sockets} {s : Node Name Os}
      → Reach n codec f api service_name d sockets s
      → Mirroring s
  Reach-Mirroring (begin actor os env st es interval draw paced h) = start-Mirroring _ env st es h
  Reach-Mirroring (next r step) = Step-Mirroring step (Reach-Mirroring r)

  -- In every state that a node reaches, whatever packets come in and in whatever order its actors run,
  -- an application that keeps the peers that the callback gives it, and drops those that it gives
  -- without addresses, knows exactly the table of the updater.
  pub app_knows_table :
      {sockets : Sockets} {s : Node Name Os}
      → Reach n codec f api service_name d sockets s
      → s.app ≡ s.updater.table
  app_knows_table r = (Reach-Mirroring r).same
