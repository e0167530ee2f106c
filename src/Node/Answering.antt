-- ===== src/Node/Answering.antt =====
-- No node is asked over IPv6 that has no socket for it.
use swarm_discovery.Prelude.{
  ℕ, ◌≡◌, refl, sym, subst, ap, ◌∙◌, List, [], ◌∷◌, ◌++◌, All, All-append, map, ◌==◌, if_both,
}
use swarm_discovery.Std.Float.{FloatOps}
use swarm_discovery.Std.Net
use swarm_discovery.Std.Net.{IpAddr}
use swarm_discovery.Std.Ord.{nat_ord}
use swarm_discovery.Discoverer.{Discoverer}
use swarm_discovery.Dns.{NameApi, Codec}
use swarm_discovery.Guardian
use swarm_discovery.Guardian.Forwarding.{sent}
use swarm_discovery.Guardian.Kept.{Keeps, handle_input-Keeps, start-Keeps}
use swarm_discovery.Messages.{
  GuardianInput, MdnsMsg, query_v4, query_v6, response, timeout, size_update, update,
}
use swarm_discovery.Receiver.Questions.{handle_msg-Asks}
use swarm_discovery.Sender.Machine.{Phase}
use swarm_discovery.Sender.Traces.{Ensures}
use swarm_discovery.Socket.{SocketApi, Sockets}
use swarm_discovery.Socket.Packets.{is_some}
use swarm_discovery.Updater
use swarm_discovery.Node.Modes.{CanAnswer, IsAnswerable, dispatch-Answers}
use swarm_discovery.Node.Sane.{env_of}
use swarm_discovery.Node.Starting.{begun-Started}
use swarm_discovery.Node.{
  Node, Step, HasSocketFor, call, guardian_round, receive, fire, fire_aborted, sender_round,
  updater_round, gc_fires, Reach, begin, next, sizes_sent, sender_ref,
}

updates-IsAnswerable :
    (sockets : Sockets) (inputs : List GuardianInput)
    → All (IsAnswerable sockets) (map update inputs)
updates-IsAnswerable sockets [] = tt
updates-IsAnswerable sockets (input ∷ inputs) = (tt, updates-IsAnswerable sockets inputs)

sizes-IsAnswerable :
    (sockets : Sockets) (es : List Updater.Effect) → All (IsAnswerable sockets) (sizes_sent es)
sizes-IsAnswerable sockets [] = tt
sizes-IsAnswerable sockets (Updater.callback id p ∷ es) = sizes-IsAnswerable sockets es
sizes-IsAnswerable sockets (Updater.send sub size ∷ es) =
    let others = sizes-IsAnswerable sockets es in
    if_both (All (IsAnswerable sockets)) (sub == sender_ref) {x = size_update size ∷ sizes_sent es}
      (tt, others) others
sizes-IsAnswerable sockets (Updater.start_gc t ∷ es) = sizes-IsAnswerable sockets es

-- A query is of the family of its address.
heard-IsAnswerable :
    (sockets s : Sockets) (from : IpAddr) (msg : MdnsMsg)
    → Keeps sockets s
    → HasSocketFor from s
    → (msg ≡ query_v6 → (addr : ℕ) × (from ≡ Net.v6 addr))
    → IsAnswerable sockets msg
heard-IsAnswerable sockets s from query_v6 k via h =
    let (addr, e) = h refl in ap is_some (sym k.1) ∙ subst (λ a. HasSocketFor a s) e via
heard-IsAnswerable sockets s from query_v4 k via h = tt
heard-IsAnswerable sockets s from (response m) k via h = tt
heard-IsAnswerable sockets s from (timeout c) k via h = tt
heard-IsAnswerable sockets s from (size_update c) k via h = tt
heard-IsAnswerable sockets s from (update i) k via h = tt

module _ {Name Os : Type 0} (n : NameApi Name) (codec : Codec Name) (f : FloatOps)
    (api : SocketApi Os) (service_name : Name) (d : Discoverer) (sockets : Sockets) where
  pub record AnsweringIn (guardian : Guardian.State Os) (phase : Phase) (mailbox : List MdnsMsg)
      : Type 0 where
    pub kept : Keeps sockets guardian.sockets
    pub can_answer : CanAnswer sockets phase
    pub mail : All (IsAnswerable sockets) mailbox

  abbrev pub Answering : Node Name Os → Type 0
  Answering s = AnsweringIn s.guardian s.sender.phase s.mailbox

  with_mail :
      (s : Node Name Os) (more : List MdnsMsg)
      → All (IsAnswerable sockets) more
      → Answering s
      → Answering (record s { mailbox = s.mailbox ++ more })
  with_mail s more h i = record {
    kept = i.kept;
    can_answer = i.can_answer;
    mail = All-append (IsAnswerable sockets) s.mailbox more i.mail h;
  }

  Step-Answering :
      {s t : Node Name Os} → Step n codec f api service_name d s t → Answering s → Answering t
  Step-Answering {s} (call input h b) i = i
  Step-Answering {s} (guardian_round actor input rest g e) i =
      let h = handle_input-Keeps api actor input s.guardian in
      record {
        kept = (h.0.0 ∙ i.kept.0, h.0.1 ∙ i.kept.1);
        can_answer = i.can_answer;
        mail = All-append (IsAnswerable sockets) s.mailbox _ i.mail (
            updates-IsAnswerable sockets
              (sent (Guardian.handle_input api actor input s.guardian).1));
      }
  Step-Answering {s} (receive now bytes from msg via h) i =
      with_mail s (msg ∷ [])
        (
          heard-IsAnswerable sockets s.guardian.sockets from msg i.kept via
              (handle_msg-Asks n codec now bytes service_name from msg h),
          tt,
        )
        i
  Step-Answering {s} (fire before after delay count e) i =
      with_mail s (timeout count ∷ []) (tt, tt) i
  Step-Answering {s} (fire_aborted before after delay count e) i =
      with_mail s (timeout count ∷ []) (tt, tt) i
  Step-Answering {s} (sender_round now millionth msg rest st es draw e h) i =
      let mail = subst (All (IsAnswerable sockets)) e i.mail in
      record {
        kept = i.kept;
        can_answer = subst (Ensures (λ st' es'. CanAnswer sockets st'.phase)) h (
            dispatch-Answers n f service_name sockets (env_of codec s now millionth) s.sender.phase
              msg s.sender refl i.can_answer mail.0);
        mail = mail.1;
      }
  Step-Answering {s} (updater_round now input rest st es interval g e h) i =
      with_mail s (sizes_sent es) (sizes-IsAnswerable sockets es) i
  Step-Answering {s} (gc_fires k e) i = i

  pub Reach-Answering :
      {s : Node Name Os} → Reach n codec f api service_name d sockets s → Answering s
  Reach-Answering (begin actor os env st es interval draw paced h) = record {
    kept = (start-Keeps api actor sockets os).0;
    can_answer = rw ((begun-Started n f service_name env d st es h).asks) tt;
    mail = tt;
  }
  Reach-Answering (next r step) = Step-Answering step (Reach-Answering r)
