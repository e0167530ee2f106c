-- ===== src/Node.antt =====
-- A whole node: the actors of src/guardian.rs, src/sender.rs and src/updater.rs with their
-- mailboxes, the packets that the receivers take in (src/receiver.rs), and the timers, interleaved in
-- any order. Each mailbox keeps its messages in the order in which they were sent. A step in which an
-- actor panics is none, so that what is reachable is what comes before a panic.
pub mod Rounds
pub mod Starting
pub mod Mirror
pub mod Current
pub mod Waiting
pub mod Collecting
pub mod Telling
pub mod Knowing
pub mod Receiving
pub mod Calling
pub mod Discovery
pub mod Modes
pub mod Answering
pub mod Clocks
pub mod Sane
pub mod Steady
pub mod Staying
pub mod Progress
pub mod Load
pub mod Settling
pub mod Resting
pub mod Pending
pub mod Learning
pub mod Meeting
pub mod Applying
pub mod Changing
pub mod Firing
pub mod ByItself
pub mod Responding
pub mod Sending
use swarm_discovery.Prelude.{
  ◌<◌, ℕ, suc, ◌+◌, Bool, true, List, [], ◌∷◌, ◌++◌, Option, some, ◌==◌, ◌≡◌, if◌then◌else◌, map,
}
use swarm_discovery.Std.BtreeMap
use swarm_discovery.Std.BtreeMap.{BtreeMap}
use swarm_discovery.Std.Float.{F32, FloatOps}
use swarm_discovery.Std.Net.{IpAddr, v4, v6}
use swarm_discovery.Std.Outcome.{Outcome, ok, panic}
use swarm_discovery.Std.Text.{Str}
use swarm_discovery.Std.Time.{Duration, Instant}
use swarm_discovery.Discoverer.{Discoverer}
use swarm_discovery.Dns.{NameApi, Codec, Message}
use swarm_discovery.Guard.Calls.{IsSendable}
use swarm_discovery.Guardian
use swarm_discovery.Guardian.Forwarding.{sent}
use swarm_discovery.Messages.{
  GuardianInput, MdnsMsg, timeout, size_update, update, UpdaterInput, peers, gc, size_subscription,
}
use swarm_discovery.Peer.{Peer, Mode}
use swarm_discovery.Receiver.{handle_msg}
use swarm_discovery.Sender.Machine
use swarm_discovery.Sender.Machine.{
  start_timer, abort_timer, send_packet, send_peers, subscribe_size, Environment, message, dispatch,
}
use swarm_discovery.Sender.Ports.{AddsPorts}
use swarm_discovery.Socket
use swarm_discovery.Socket.{SocketApi, Sockets}
use swarm_discovery.Socket.Packets.{is_some}
use swarm_discovery.Updater
use swarm_discovery.Updater.{callback, send, start_gc, gc_interval}
use swarm_discovery.Updater.Callbacks.{replay}

-- A timer, with the outcome of the computation of its delay, and the number in its message.
abbrev pub Timer : Type 0
Timer = Outcome Duration × ℕ

-- The reference of the sender among the subscribers of the updater.
abbrev pub sender_ref : ℕ
sender_ref = 0

pub record Node (Name Os : Type 0) : Type 0 where
  pub guardian : Guardian.State Os
  pub inbox : List GuardianInput
  pub sender : Machine.State Name
  pub mailbox : List MdnsMsg
  -- The timers that run, the last one first, and those that were aborted, perhaps too late.
  pub timers : List Timer
  pub aborted : List Timer
  pub updater : Updater.State
  pub updates : List UpdaterInput
  pub gc_timers : ℕ
  -- What the application has learnt from the callback.
  pub app : BtreeMap Str Peer

-- What the effects of the sender do to the timers that run, and which of them they abort.
abbrev pub running_after : {Name : Type 0} → List (Machine.Effect Name) → List Timer → List Timer
running_after [] live = live
running_after (start_timer delay count ∷ es) live = running_after es ((delay, count) ∷ live)
running_after (abort_timer ∷ es) [] = running_after es []
running_after (abort_timer ∷ es) (t ∷ live) = running_after es live
running_after (_ ∷ es) live = running_after es live

abbrev pub aborted_by : {Name : Type 0} → List (Machine.Effect Name) → List Timer → List Timer
aborted_by [] live = []
aborted_by (start_timer delay count ∷ es) live = aborted_by es ((delay, count) ∷ live)
aborted_by (abort_timer ∷ es) [] = aborted_by es []
aborted_by (abort_timer ∷ es) (t ∷ live) = t ∷ aborted_by es live
aborted_by (_ ∷ es) live = aborted_by es live

-- The messages of the sender to the updater.
abbrev pub to_updater : {Name : Type 0} → List (Machine.Effect Name) → List UpdaterInput
to_updater [] = []
to_updater (send_peers m ∷ es) = peers m ∷ to_updater es
to_updater (subscribe_size ∷ es) = size_subscription sender_ref ∷ to_updater es
to_updater (_ ∷ es) = to_updater es

-- The sizes that the updater sends to the sender.
abbrev pub sizes_sent : List Updater.Effect → List MdnsMsg
sizes_sent [] = []
sizes_sent (send sub size ∷ es) =
    let others = sizes_sent es in if sub == sender_ref then size_update size ∷ others else others
sizes_sent (_ ∷ es) = sizes_sent es

abbrev pub gc_started : List Updater.Effect → ℕ
gc_started [] = 0
gc_started (start_gc interval ∷ es) = suc (gc_started es)
gc_started (_ ∷ es) = gc_started es

-- `Sockets::send_msg` on the sockets that the guardian and the sender share.
abbrev pub sends : {Name : Type 0} → Codec Name → Sockets → Message Name → Mode → Outcome (Unit {0})
sends codec sockets msg mode = elim (Socket.send_msg codec sockets msg mode) [
  | panic ↦ panic
  | ok datagrams ↦ ok tt
]

-- Packets of IPv6 come in on the IPv6 socket alone; those of IPv4 on several, one of which may have
-- been removed.
abbrev pub HasSocketFor : IpAddr → Sockets → Type 0
HasSocketFor (v4 addr) sockets = Unit
HasSocketFor (v6 addr) sockets = is_some sockets.v6_socket ≡ true

module _ {Name Os : Type 0} (n : NameApi Name) (codec : Codec Name) (f : FloatOps)
    (api : SocketApi Os) (service_name : Name) (d : Discoverer) where
  pub data Step (s : Node Name Os) : Node Name Os → Type 0 where
    -- A call on the guard, whose port, if it has one to add, is a `u16`.
    call :
        (input : GuardianInput)
        → IsSendable input
        → AddsPorts input
        → Step s (record s { inbox = s.inbox ++ input ∷ [] })
    -- A round of the guardian; `actor` is the reference of the receiver that it may start.
    guardian_round :
        (actor : ℕ) (input : GuardianInput) (rest : List GuardianInput)
        → s.guardian.running ≡ true
        → s.inbox ≡ input ∷ rest
        → Step s (record s {
          guardian = (Guardian.handle_input api actor input s.guardian).0;
          inbox = rest;
          mailbox =
              s.mailbox ++ map update (sent (Guardian.handle_input api actor input s.guardian).1);
        })
    -- A receiver takes in a packet, from an address of the family of its socket.
    receive :
        (now : Instant) (bytes : List ℕ) (from : IpAddr) (msg : MdnsMsg)
        → HasSocketFor from s.guardian.sockets
        → handle_msg n codec now bytes service_name from ≡ ok (some msg)
        → Step s (record s { mailbox = s.mailbox ++ msg ∷ [] })
    -- A timer of the sender fires, or one that was aborted too late.
    fire :
        (before after : List Timer) (delay : Duration) (count : ℕ)
        → s.timers ≡ before ++ (ok delay, count) ∷ after
        → Step s (record s { timers = before ++ after; mailbox = s.mailbox ++ timeout count ∷ [] })
    fire_aborted :
        (before after : List Timer) (delay : Duration) (count : ℕ)
        → s.aborted ≡ before ++ (ok delay, count) ∷ after
        → Step s (record s { aborted = before ++ after; mailbox = s.mailbox ++ timeout count ∷ [] })
    -- A round of the sender, at a time and with a random draw.
    sender_round :
        (now : Instant) (millionth : ℕ) (msg : MdnsMsg) (rest : List MdnsMsg)
        (st : Machine.State Name) (es : List (Machine.Effect Name))
        → millionth < 1_000_000
        → s.mailbox ≡ msg ∷ rest
        → dispatch n f service_name
            (record { now = now; millionth = millionth; send_msg = sends codec s.guardian.sockets })
            s.sender.phase
            (message msg)
            s.sender
          ≡ ok (st, es)
        → Step s (record s {
          sender = st;
          mailbox = rest;
          timers = running_after es s.timers;
          aborted = s.aborted ++ aborted_by es s.timers;
          updates = s.updates ++ to_updater es;
        })
    -- A round of the updater.
    updater_round :
        (now : Instant) (input : UpdaterInput) (rest : List UpdaterInput) (st : Updater.State)
        (es : List Updater.Effect) (interval : Duration)
        → gc_interval d.tau ≡ ok interval
        → s.updates ≡ input ∷ rest
        → Updater.handle_input f d.tau d.phi interval now s.updater input ≡ ok (st, es)
        → Step s (record s {
          updater = st;
          updates = rest;
          mailbox = s.mailbox ++ sizes_sent es;
          gc_timers = s.gc_timers + gc_started es;
          app = replay es s.app;
        })
    gc_fires :
        (k : ℕ)
        → s.gc_timers ≡ suc k
        → Step s (record s { gc_timers = k; updates = s.updates ++ gc ∷ [] })

  -- A node when its actors have started, before they have handled any message. The updater has
  -- started its first timer, as `begin` asks.
  abbrev pub started :
      Guardian.State Os → Machine.State Name → List (Machine.Effect Name) → Node Name Os
  started g st es = record {
    guardian = g;
    inbox = [];
    sender = st;
    mailbox = [];
    timers = running_after es [];
    aborted = [];
    updater = Updater.initial;
    updates = to_updater es;
    gc_timers = 1;
    app = BtreeMap.empty;
  }

  -- What a node comes to that was set up with the discoverer `d`, on the sockets of `spawn`.
  pub data Reach (sockets : Sockets) : Node Name Os → Type 0 where
    begin :
        (actor : ℕ) (os : Os) (env : Environment Name) (st : Machine.State Name)
        (es : List (Machine.Effect Name)) (interval : Duration)
        → env.millionth < 1_000_000
        → gc_interval d.tau ≡ ok interval
        → Machine.start n f service_name env d ≡ ok (st, es)
        → Reach sockets (started (Guardian.start api actor sockets os).0 st es)
    next : {s t : Node Name Os} → Reach sockets s → Step s t → Reach sockets t
