-- ===== src/Node/Steady.antt =====
-- No actor of a sane node panics, and no timer is lost.
use swarm_discovery.Prelude.{
  ℕ, ◌*◌, ◌<◌, ◌≤◌, ◌≡◌, refl, ap, subst, ◌∙◌, true, List, All, Option, none, some,
}
use swarm_discovery.Std.Float.{FloatOps}
use swarm_discovery.Std.Outcome.{Outcome, ok, panic, ◌>>=◌}
use swarm_discovery.Std.Ord.{list_ord, nat_ord}
use swarm_discovery.Std.Time.{Instant}
use swarm_discovery.Discoverer.{Discoverer}
use swarm_discovery.Dns.{NameApi, Codec, Message}
use swarm_discovery.Guardian
use swarm_discovery.Guardian.Kept.{Keeps}
use swarm_discovery.Messages.{
  GuardianInput, MdnsMsg, query_v4, query_v6, response, timeout, size_update, update,
}
use swarm_discovery.Sender.Delay.{cutoff, response_delay}
use swarm_discovery.Sender.Going.{IsReady, GoesOn, dispatch-GoesOn, update_peers_kept}
use swarm_discovery.Sender.Invariant.{AllowedMsg, EnsuresUpdate, dispatch-Holds}
use swarm_discovery.Sender.Machine
use swarm_discovery.Sender.Machine.{
  Phase, querying, responding, stopped, Effect, start_timer, abort_timer, send_packet, send_peers,
  subscribe_size, Environment, message, dispatch,
}
use swarm_discovery.Sender.Ports.{AddsPorts}
use swarm_discovery.Sender.Response.{update_response, updated_response, update_peers}
use swarm_discovery.Sender.Timely.{AllTimed, dispatch-Timed}
use swarm_discovery.Sender.Traces.{Ensures}
use swarm_discovery.Socket.{SocketApi, Sockets}
use swarm_discovery.Peer.{Mode, v4, v6, any}
use swarm_discovery.Socket.Packets.{is_some}
use swarm_discovery.Node.Answering.{Answering}
use swarm_discovery.Node.Modes.{CanSend, CanAnswer, lenient, IsElsewhere, dispatch-lenient}
use swarm_discovery.Node.Clocks.{CanFire}
use swarm_discovery.Node.Current.{CleanMsg, Announcing}
use swarm_discovery.Node.Sane.{IsSane, sends_lem, env_of}
use swarm_discovery.Node.{Timer, Node}

clean_msg : (msg : MdnsMsg) → CleanMsg msg → AllowedMsg AddsPorts (message msg)
clean_msg query_v4 h = tt
clean_msg query_v6 h = tt
clean_msg (response m) h = tt
clean_msg (timeout c) h = tt
clean_msg (size_update k) h = tt
clean_msg (update i) h = h.1.1

module _ {Name Os : Type 0} (n : NameApi Name) (codec : Codec Name) (f : FloatOps)
    (api : SocketApi Os) (service_name : Name) (d : Discoverer) (sockets : Sockets)
    (sane : IsSane n f service_name d sockets) where
  -- The cadence and the rate are those that the node was set up with.
  abbrev pub IsPaced : Discoverer → Option (Message Name) → Type 0
  IsPaced d' r = (d'.tau ≡ d.tau) × (d'.phi ≡ d.phi)

  update_response-IsPaced :
      (now : Instant) (d' : Discoverer) (r : Option (Message Name)) (input : GuardianInput)
      → AddsPorts input
      → IsPaced d' r
      → EnsuresUpdate IsPaced (update_response n now d' service_name input)
  unfolding update_response
  update_response-IsPaced now d' r input b h =
      made (updated_response n input (update_peers now input d') service_name)
    where
      made :
          (m : Outcome (Option (Message Name)))
          → EnsuresUpdate IsPaced (m >>= λ r'. ok (update_peers now input d', r'))
      made (ok r') =
          let kept = update_peers_kept n f service_name d.peer_id sane.names now input d' in
          (kept.1 ∙ h.0, kept.2 ∙ h.1)
      made panic = tt

  -- What holds of a sane node in every state.
  pub record SteadyIn (guardian : Guardian.State Os) (sender : Machine.State Name)
      (timers aborted : List Timer) : Type 0 where
    pub live : All CanFire timers
    pub dead : All CanFire aborted
    pub small : sender.extra_delay ≤ 10 * response_delay
    pub paced : IsPaced sender.discoverer sender.response_msg
    pub kept : Keeps sockets guardian.sockets
    pub running : guardian.running ≡ true

  abbrev pub Steady : Node Name Os → Type 0
  Steady s = SteadyIn s.guardian s.sender s.timers s.aborted

  module _ (s : Node Name Os) (i : Steady s) (a : Announcing n codec f api service_name d s)
      (can : Answering n codec f api service_name d sockets s) where
    same_cut : Machine.cut_of n f service_name s.sender ≡ cutoff f d.tau d.phi
    same_cut = rw (i.paced.0, i.paced.1) refl

    ready : IsReady n f service_name d.peer_id sane.names (cutoff f d.tau d.phi) s.sender
    ready = record {
      small = i.small;
      cut = same_cut;
      same_id = a.state.same_id;
      ports = a.state.sound.ports;
    }

    -- In every mode, or but for IPv6, where sending over IPv6 makes no difference.
    abbrev SafeIn : Environment Name → Type 0
    SafeIn env = (packet : Message Name) (mode : Mode) → env.send_msg packet mode ≡ ok tt

    goes_on :
        (env : Environment Name) (msg : MdnsMsg)
        → CleanMsg msg
        → SafeIn env
        → GoesOn n f service_name d.peer_id sane.names
            (cutoff f d.tau d.phi)
            (dispatch n f service_name env s.sender.phase (message msg) s.sender)
    goes_on env msg h safe =
        dispatch-GoesOn n f service_name d.peer_id sane.names env (message msg) s.sender _
          sane.positive (safe, clean_msg msg h) ready

    pub round-GoesOn :
        (now : Instant) (millionth : ℕ) (msg : MdnsMsg)
        → CleanMsg msg
        → GoesOn n f service_name d.peer_id sane.names (cutoff f d.tau d.phi) (
            dispatch n f service_name
              (env_of codec s now millionth)
              s.sender.phase
              (message msg)
              s.sender)
    round-GoesOn now millionth msg h = with_v6 sockets.v6_socket refl
      where
        env : Environment Name
        env = env_of codec s now millionth

        sends_in :
            (packet : Message Name) (mode : Mode)
            → CanSend sockets mode
            → env.send_msg packet mode ≡ ok tt
        sends_in packet mode k =
            sends_lem codec sockets s.guardian.sockets packet mode sane.on_v4 i.kept k

        over_both : is_some sockets.v6_socket ≡ true → SafeIn env
        over_both e packet v4 = sends_in packet v4 tt
        over_both e packet v6 = sends_in packet v6 e
        over_both e packet any = sends_in packet any tt

        over_v4 : SafeIn (lenient n f service_name sockets env)
        over_v4 packet v4 = sends_in packet v4 tt
        over_v4 packet v6 = refl
        over_v4 packet any = sends_in packet any tt

        elsewhere :
            (phase : Phase)
            → sockets.v6_socket ≡ none
            → CanAnswer sockets phase
            → IsElsewhere n f service_name sockets env phase
        elsewhere querying e k = tt
        elsewhere stopped e k = tt
        elsewhere (responding v4 heard) e k = tt
        elsewhere (responding any heard) e k = tt
        elsewhere (responding v6 heard) e k = let never : ⊥ = cc (ap is_some e, k) in absurd never

        with_v6 :
            (o : Option ℕ)
            → sockets.v6_socket ≡ o
            → GoesOn n f service_name d.peer_id sane.names
                (cutoff f d.tau d.phi)
                (dispatch n f service_name env s.sender.phase (message msg) s.sender)
        with_v6 (some socket) e = goes_on env msg h (over_both (ap is_some e))
        with_v6 none e =
            subst (GoesOn n f service_name d.peer_id sane.names (cutoff f d.tau d.phi))
              (dispatch-lenient n f service_name sockets env s.sender.phase msg s.sender
                (elsewhere s.sender.phase e can.can_answer))
              (goes_on (lenient n f service_name sockets env) msg h over_v4)

    pub round-Timed :
        (now : Instant) (millionth : ℕ) (msg : MdnsMsg)
        → millionth < 1_000_000
        → Ensures AllTimed (
            dispatch n f service_name
              (env_of codec s now millionth)
              s.sender.phase
              (message msg)
              s.sender)
    round-Timed now millionth msg draw =
        dispatch-Timed n f service_name (env_of codec s now millionth) draw s.sender
          (rw (i.paced.0) (sane.short)) i.small (rw same_cut (sane.positive)) s.sender.phase msg

    pub round-IsPaced :
        (now : Instant) (millionth : ℕ) (msg : MdnsMsg)
        → CleanMsg msg
        → Ensures
            (λ st es. IsPaced st.discoverer st.response_msg)
            (dispatch n f service_name
              (env_of codec s now millionth)
              s.sender.phase
              (message msg)
              s.sender)
    round-IsPaced now millionth msg h =
        dispatch-Holds n f service_name IsPaced AddsPorts update_response-IsPaced
          (env_of codec s now millionth) s.sender.phase (message msg) s.sender (clean_msg msg h)
          i.paced
