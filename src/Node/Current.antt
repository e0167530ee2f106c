-- ===== src/Node/Current.antt =====
-- What the sender would announce, in a whole node.
use swarm_discovery.Prelude.{
  ◌≡◌, refl, sym, ap, subst, ◌∙◌, List, [], ◌∷◌, ◌++◌, Option, All, All-append, map, if_both, ◌==◌,
}
use swarm_discovery.Std.Float.{FloatOps}
use swarm_discovery.Std.Ord.{list_ord, nat_ord}
use swarm_discovery.Std.Outcome.{Outcome, ok, panic, ◌>>=◌}
use swarm_discovery.Std.Time.{Instant}
use swarm_discovery.Discoverer.{Discoverer, update_me}
use swarm_discovery.Dns.{NameApi, Codec, Message}
use swarm_discovery.Guard.Calls.{IsSendable}
use swarm_discovery.Guardian.Forwarding.{own, handle_input-GoesOn}
use swarm_discovery.Messages.{
  GuardianInput, remove_all, remove_port, remove_addr, add_addr, set_txt, remove_txt, add_interface,
  remove_interface, MdnsMsg, query_v4, query_v6, response, timeout, size_update, update,
}
use swarm_discovery.Receiver.Shape.{IsHeard, handle_msg-IsHeard}
use swarm_discovery.Sender.Current.{IsForwarded, updated_response_lem}
use swarm_discovery.Sender.Invariant.{AllowedMsg, EnsuresUpdate, dispatch-Holds}
use swarm_discovery.Sender.Machine
use swarm_discovery.Sender.Machine.{message}
use swarm_discovery.Sender.Response.{make_response, update_peers, update_response, updated_response}
use swarm_discovery.Sender.Ports.{AddsPorts, update_peers-HasPorts}
use swarm_discovery.Sender.Sound.{IsSound, update_peers-FitTxt, Built, Built-IsSound}
use swarm_discovery.Sender.Traces.{Ensures}
use swarm_discovery.Sender.Updates.{update_peers-IsTidy}
use swarm_discovery.Socket.{SocketApi, Sockets}
use swarm_discovery.Updater
use swarm_discovery.Node.Starting.{begun-Started}
use swarm_discovery.Node.{
  Node, Step, call, guardian_round, receive, fire, fire_aborted, sender_round, updater_round,
  gc_fires, Reach, begin, next, sizes_sent, sender_ref,
}

-- An input of the guard sets no attribute that is too long, and adds a 16-bit port.
abbrev pub IsPosted : GuardianInput → Type 0
IsPosted input = IsSendable input × AddsPorts input

-- An update that reaches the sender is such an input, and changes the node.
abbrev pub IsClean : GuardianInput → Type 0
IsClean input = IsForwarded input × IsPosted input

abbrev pub CleanMsg : MdnsMsg → Type 0
CleanMsg (update input) = IsClean input
CleanMsg _ = Unit

own_clean : (input : GuardianInput) → IsPosted input → All CleanMsg (map update (own input))
own_clean remove_all h = ((tt, h), tt)
own_clean (remove_port port) h = ((tt, h), tt)
own_clean (remove_addr addr) h = ((tt, h), tt)
own_clean (add_addr port addrs) h = ((tt, h), tt)
own_clean (set_txt key value) h = ((tt, h), tt)
own_clean (remove_txt key) h = ((tt, h), tt)
own_clean (add_interface addr) h = tt
own_clean (remove_interface addr) h = tt

heard_clean : (msg : MdnsMsg) → IsHeard msg → CleanMsg msg
heard_clean query_v4 h = tt
heard_clean query_v6 h = tt
heard_clean (response m) h = tt
heard_clean (timeout c) h = tt
heard_clean (size_update k) h = tt
heard_clean (update i) h = absurd h

allowed : (msg : MdnsMsg) → CleanMsg msg → AllowedMsg IsClean (message msg)
allowed query_v4 h = tt
allowed query_v6 h = tt
allowed (response m) h = tt
allowed (timeout c) h = tt
allowed (size_update k) h = tt
allowed (update i) h = h

sizes_clean : (es : List Updater.Effect) → All CleanMsg (sizes_sent es)
sizes_clean [] = tt
sizes_clean (Updater.callback id p ∷ es) = sizes_clean es
sizes_clean (Updater.send sub size ∷ es) =
    let others = sizes_clean es in
    if_both (All CleanMsg) (sub == sender_ref) {x = size_update size ∷ sizes_sent es} (tt, others)
      others
sizes_clean (Updater.start_gc t ∷ es) = sizes_clean es

update_peers_id :
    (now : Instant) (input : GuardianInput) (d : Discoverer)
    → (update_peers now input d).peer_id ≡ d.peer_id
unfolding update_peers update_me
update_peers_id now remove_all d = refl
update_peers_id now (remove_port port) d = refl
update_peers_id now (remove_addr addr) d = refl
update_peers_id now (add_addr port addrs) d = refl
update_peers_id now (set_txt key value) d = refl
update_peers_id now (remove_txt key) d = refl
update_peers_id now (add_interface addr) d = refl
update_peers_id now (remove_interface addr) d = refl

module _ {Name Os : Type 0} (n : NameApi Name) (codec : Codec Name) (f : FloatOps)
    (api : SocketApi Os) (service_name : Name) (d : Discoverer) where
  -- The sender's response is that of its node, which is still the node `d`, and is sound.
  pub record Announces (now_d : Discoverer) (r : Option (Message Name)) : Type 0 where
    pub current : make_response n now_d service_name ≡ ok r
    pub sound : IsSound now_d
    pub same_id : now_d.peer_id ≡ d.peer_id

  update_response-Announces :
      (now : Instant) (d1 : Discoverer) (r : Option (Message Name)) (input : GuardianInput)
      → IsClean input
      → Announces d1 r
      → EnsuresUpdate Announces (update_response n now d1 service_name input)
  unfolding update_response
  update_response-Announces now d1 r input h a =
      made (updated_response n input (update_peers now input d1) service_name)
        (sym (updated_response_lem n f service_name input (update_peers now input d1) h.0))
    where
      made :
          (m : Outcome (Option (Message Name)))
          → make_response n (update_peers now input d1) service_name ≡ m
          → EnsuresUpdate Announces (m >>= λ r'. ok (update_peers now input d1, r'))
      made (ok r') e = record {
        current = e;
        sound = record {
          tidy = update_peers-IsTidy now input d1 a.sound.tidy;
          fit = update_peers-FitTxt now input d1 h.1.0 a.sound.fit;
          ports = update_peers-HasPorts now input d1 h.1.1 a.sound.ports;
        };
        same_id = update_peers_id now input d1 ∙ a.same_id;
      }
      made panic e = tt

  pub record AnnouncingIn (waiting : List GuardianInput) (mailbox : List MdnsMsg)
      (sender : Machine.State Name) : Type 0 where
    pub inbox : All IsPosted waiting
    pub mail : All CleanMsg mailbox
    pub state : Announces sender.discoverer sender.response_msg

  abbrev pub Announcing : Node Name Os → Type 0
  Announcing s = AnnouncingIn s.inbox s.mailbox s.sender

  delivered :
      (msg : MdnsMsg) (s : Node Name Os)
      → CleanMsg msg
      → Announcing s
      → All CleanMsg (s.mailbox ++ msg ∷ [])
  delivered msg s h i = All-append CleanMsg s.mailbox (msg ∷ []) i.mail (h, tt)

  Step-Announcing :
      {s t : Node Name Os} → Step n codec f api service_name d s t → Announcing s → Announcing t
  Step-Announcing {s} (call input h b) i = record {
    inbox = All-append IsPosted s.inbox (input ∷ []) i.inbox ((h, b), tt);
    mail = i.mail;
    state = i.state;
  }
  Step-Announcing {s} (guardian_round actor input rest g e) i =
      let inbox = subst (All IsPosted) e i.inbox in
      record {
        inbox = inbox.1;
        mail =
            All-append CleanMsg s.mailbox _ i.mail
              (rw ((handle_input-GoesOn api actor input s.guardian g).1) (own_clean input inbox.0));
        state = i.state;
      }
  Step-Announcing {s} (receive now bytes from msg via h) i = record {
    inbox = i.inbox;
    mail =
        delivered msg s
          (heard_clean msg (handle_msg-IsHeard n codec now bytes service_name from msg h)) i;
    state = i.state;
  }
  Step-Announcing {s} (fire before after delay count e) i = record {
    inbox = i.inbox;
    mail = delivered (timeout count) s tt i;
    state = i.state;
  }
  Step-Announcing {s} (fire_aborted before after delay count e) i = record {
    inbox = i.inbox;
    mail = delivered (timeout count) s tt i;
    state = i.state;
  }
  Step-Announcing {s} (sender_round now millionth msg rest st es draw e h) i =
      let mail = subst (All CleanMsg) e i.mail in
      record {
        inbox = i.inbox;
        mail = mail.1;
        state = subst (Ensures (λ st' es'. Announces st'.discoverer st'.response_msg)) h (
            dispatch-Holds n f service_name Announces IsClean update_response-Announces _
              s.sender.phase (message msg) s.sender (allowed msg mail.0) i.state);
      }
  Step-Announcing {s} (updater_round now input rest st es interval g e h) i = record {
    inbox = i.inbox;
    mail = All-append CleanMsg s.mailbox (sizes_sent es) i.mail (sizes_clean es);
    state = i.state;
  }
  Step-Announcing {s} (gc_fires k e) i = i

  pub Reach-Announcing :
      {sockets : Sockets} {s : Node Name Os}
      → IsSound d
      → Reach n codec f api service_name d sockets s
      → Announcing s
  Reach-Announcing sound (begin actor os env st es interval draw paced h) =
      let start = begun-Started n f service_name env d st es h in
      record {
        inbox = tt;
        mail = tt;
        state = record {
          current = rw start.of_node start.current;
          sound = rw start.of_node sound;
          same_id = ap (λ x. x.peer_id) start.of_node;
        };
      }
  Reach-Announcing sound (next r step) = Step-Announcing step (Reach-Announcing sound r)

  -- In every state that a node reaches which was made by the builder, the response that its sender
  -- would send is the one that `make_response` makes for its present addresses and attributes,
  -- under the identifier that it was set up with; these addresses stand in strict order and have
  -- 16-bit ports, and the attributes are ordered by their keys and fit into TXT records. This
  -- takes in every sequence of calls on its guard that add 16-bit ports, and every order in which
  -- its actors run.
  pub node-Announces :
      {sockets : Sockets} {s : Node Name Os}
      → Built d
      → Reach n codec f api service_name d sockets s
      → Announces s.sender.discoverer s.sender.response_msg
  node-Announces b r = (Reach-Announcing (Built-IsSound b) r).state
