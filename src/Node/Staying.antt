-- ===== src/Node/Staying.antt =====
-- A sane node stays as it is: the steps keep `Steady`.
use swarm_discovery.Prelude.{ap, subst, ◌∙◌, [], All, All-append, arith}
use swarm_discovery.Std.Float.{FloatOps}
use swarm_discovery.Std.Outcome.{ok}
use swarm_discovery.Std.Ord.{list_ord, nat_ord}
use swarm_discovery.Discoverer.{Discoverer}
use swarm_discovery.Dns.{NameApi, Codec}
use swarm_discovery.Guardian.Kept.{handle_input-Keeps, start-Keeps}
use swarm_discovery.Sender.Delay.{cutoff}
use swarm_discovery.Sender.Going.{GoesOn}
use swarm_discovery.Sender.Sound.{Built-IsSound}
use swarm_discovery.Sender.Timely.{AllTimed, start-Timed}
use swarm_discovery.Sender.Traces.{Ensures}
use swarm_discovery.Socket.{SocketApi, Sockets}
use swarm_discovery.Node.Answering.{Answering, Reach-Answering}
use swarm_discovery.Node.Clocks.{CanFire, running_after-CanFire, aborted_by-CanFire, without_one}
use swarm_discovery.Node.Current.{CleanMsg, Announcing, Reach-Announcing}
use swarm_discovery.Node.Sane.{IsSane}
use swarm_discovery.Node.Starting.{begun-Started}
use swarm_discovery.Node.{
  Node, Step, call, guardian_round, receive, fire, fire_aborted, sender_round, updater_round,
  gc_fires, Reach, begin, next,
}
use swarm_discovery.Node.Steady.{IsPaced, Steady, round-GoesOn, round-Timed, round-IsPaced}

module _ {Name Os : Type 0} (n : NameApi Name) (codec : Codec Name) (f : FloatOps)
    (api : SocketApi Os) (service_name : Name) (d : Discoverer) (sockets : Sockets)
    (sane : IsSane n f service_name d sockets) where
  abbrev Holds : Node Name Os → Type 0
  Holds s = Steady n codec f api service_name d sockets sane s

  Step-Steady :
      {s t : Node Name Os}
      → Step n codec f api service_name d s t
      → Announcing n codec f api service_name d s
      → Answering n codec f api service_name d sockets s
      → Holds s
      → Holds t
  Step-Steady {s} (call input h b) a can i = i
  Step-Steady {s} (guardian_round actor input rest g e) a can i =
      let h = handle_input-Keeps api actor input s.guardian in
      record {
        live = i.live;
        dead = i.dead;
        small = i.small;
        paced = i.paced;
        kept = (h.0.0 ∙ i.kept.0, h.0.1 ∙ i.kept.1);
        running = h.1 ∙ i.running;
      }
  Step-Steady {s} (receive now bytes from msg via h) a can i = i
  Step-Steady {s} (fire before after delay count e) a can i = record {
    live = without_one before after (ok delay, count) (subst (All CanFire) e i.live);
    dead = i.dead;
    small = i.small;
    paced = i.paced;
    kept = i.kept;
    running = i.running;
  }
  Step-Steady {s} (fire_aborted before after delay count e) a can i = record {
    live = i.live;
    dead = without_one before after (ok delay, count) (subst (All CanFire) e i.dead);
    small = i.small;
    paced = i.paced;
    kept = i.kept;
    running = i.running;
  }
  Step-Steady {s} (sender_round now millionth msg rest st es draw e h) a can i =
      let clean = (subst (All CleanMsg) e a.mail).0 in
      let timed =
        subst (Ensures AllTimed) h (
          round-Timed n codec f api service_name d sockets sane s i a can now millionth msg draw) in
      record {
        live = running_after-CanFire es s.timers timed i.live;
        dead = All-append CanFire s.aborted _ i.dead (aborted_by-CanFire es s.timers timed i.live);
        small =
            (subst (GoesOn n f service_name d.peer_id sane.names (cutoff f d.tau d.phi)) h (
              round-GoesOn n codec f api service_name d sockets sane s i a can now millionth msg
                clean)).small;
        paced =
            subst
              (Ensures (λ st' es'.
                IsPaced n codec f api service_name d sockets sane st'.discoverer st'.response_msg))
              h
              (round-IsPaced n codec f api service_name d sockets sane s i a can now millionth msg
                clean);
        kept = i.kept;
        running = i.running;
      }
  Step-Steady {s} (updater_round now input rest st es interval g e h) a can i = i
  Step-Steady {s} (gc_fires k e) a can i = i

  pub Reach-Steady : {s : Node Name Os} → Reach n codec f api service_name d sockets s → Holds s
  Reach-Steady (begin actor os env st es interval draw paced h) =
      let start = begun-Started n f service_name env d st es h in
      let timed = subst (Ensures AllTimed) h (start-Timed n f service_name env d draw sane.short) in
      let kept = start-Keeps api actor sockets os in
      record {
        live = running_after-CanFire es [] timed tt;
        dead = tt;
        small = rw start.patient (omega arith);
        paced = (ap (λ x. x.tau) start.of_node, ap (λ x. x.phi) start.of_node);
        kept = kept.0;
        running = kept.1;
      }
  Reach-Steady (next r step) =
      Step-Steady step (Reach-Announcing n codec f api service_name d (Built-IsSound sane.built) r)
        (Reach-Answering n codec f api service_name d sockets r) (Reach-Steady r)
