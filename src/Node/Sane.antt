-- ===== src/Node/Sane.antt =====
-- A node of which no computation panics: what is asked of its settings and of its sockets.
use swarm_discovery.Prelude.{ℕ, ◌*◌, ◌/◌, ◌<◌, ◌^◌, ◌≡◌, refl, ap, ◌∙◌, Option, some, arith}
use swarm_discovery.Std.Float.{FloatOps}
use swarm_discovery.Std.Outcome.{ok}
use swarm_discovery.Std.Time.{Duration, Instant, checked_below}
use swarm_discovery.Std.Ord.{nat_ord}
use swarm_discovery.Discoverer.{Discoverer}
use swarm_discovery.Dns.{NameApi, Codec, Message}
use swarm_discovery.Guardian.Kept.{Keeps}
use swarm_discovery.Peer.{Mode, v4, v6, any}
use swarm_discovery.Sender.Delay.{cutoff}
use swarm_discovery.Sender.Sound.{Built}
use swarm_discovery.Sender.Timely.{IsShort, HasDelay}
use swarm_discovery.Socket.{Sockets, send_msg, send_single}
use swarm_discovery.Updater.{gc_interval, grace_period}
use swarm_discovery.Wire.Names.{ServiceNames}
use swarm_discovery.Sender.Machine.{Environment}
use swarm_discovery.Socket.Packets.{is_some}
use swarm_discovery.Node.Modes.{CanSend}
use swarm_discovery.Node.{Node, sends}

abbrev pub IsThere : Option ℕ → Type 0
IsThere o = (socket : ℕ) × (o ≡ some socket)

-- The names of the service parse, the builder has made the node, its cadence and its rate give a
-- positive cutoff, the delays are within the range of a duration, also for swarms of up to 2^32 peers,
-- and there is a socket for IPv4; there may be none for IPv6.
pub record IsSane {Name : Type 0} (n : NameApi Name) (f : FloatOps) (service_name : Name)
    (d : Discoverer) (sockets : Sockets) : Type 0 where
  pub names : ServiceNames n d.peer_id service_name
  pub built : Built d
  pub positive : 0 < cutoff f d.tau d.phi
  pub short : IsShort d.tau
  pub grace : (size : ℕ) → 0 < size → size < 2 ^ 32 → HasDelay (grace_period f d.tau d.phi size)
  pub on_v4 : IsThere sockets.v4_socket

pub gc_interval-HasDelay : (tau : Duration) → IsShort tau → HasDelay (gc_interval tau)
unfolding gc_interval
gc_interval-HasDelay tau short =
    (tau * 12345 / 9999, rw (checked_below (tau * 12345) (omega (arith, short))) refl)

-- A message goes out in every mode for which there is a socket.
pub sends_lem :
    {Name : Type 0} (codec : Codec Name) (sockets s : Sockets) (msg : Message Name) (mode : Mode)
    → IsThere sockets.v4_socket
    → Keeps sockets s
    → CanSend sockets mode
    → sends codec s msg mode ≡ ok tt
unfolding send_msg send_single
sends_lem codec sockets s msg mode (a, p) k h =
    let four : s.v4_socket ≡ some a = k.0 ∙ p in
    let six : CanSend s mode = also_now mode h in ground (arith, mode, four, six)
  where
    also_now : (mode : Mode) → CanSend sockets mode → CanSend s mode
    also_now v4 h = tt
    also_now any h = tt
    also_now v6 h = ap is_some k.1 ∙ h

-- What a round of the sender reads, in a state of its node.
abbrev pub env_of : {Name Os : Type 0} → Codec Name → Node Name Os → Instant → ℕ → Environment Name
env_of codec s now millionth = record {
  now = now;
  millionth = millionth;
  send_msg = sends codec s.guardian.sockets;
}
