-- ===== src/Node/Meeting.antt =====
-- Two nodes: what one announces, the other learns, in whatever order its actors run.
use swarm_discovery.Prelude.{
  ℕ, ◌≡◌, refl, sym, ap, subst, ◌∙◌, false, List, [], ◌∷◌, ◌++◌, some, All,
}
use swarm_discovery.Std.BtreeMap
use swarm_discovery.Std.BtreeMap.{BtreeMap}
use swarm_discovery.Std.Float.{FloatOps}
use swarm_discovery.Std.Net.{IpAddr}
use swarm_discovery.Std.Ord.{list_ord, nat_ord}
use swarm_discovery.Std.Outcome.{ok}
use swarm_discovery.Std.Text.{Str, is_empty, IsUtf8}
use swarm_discovery.Std.Time.{Instant}
use swarm_discovery.Discoverer.{Discoverer}
use swarm_discovery.Dns.{NameApi, Codec, Message}
use swarm_discovery.Messages.{MdnsMsg, response}
use swarm_discovery.Peer.{Peer}
use swarm_discovery.Receiver.{handle_msg}
use swarm_discovery.Sender.Sound.{Built}
use swarm_discovery.Socket.{SocketApi, Sockets}
use swarm_discovery.Wire.Attributes.{IsPlain}
use swarm_discovery.Wire.Names.{ServiceNames}
use swarm_discovery.Wire.RoundTrip.{heard}
use swarm_discovery.Node.Discovery.{learnt_peer, packet-heard}
use swarm_discovery.Node.Learning.{response-Learnt}
use swarm_discovery.Node.Mirror.{app_knows_table}
use swarm_discovery.Node.Resting.{IsAtRest}
use swarm_discovery.Node.Settling.{Rounds, Rounds-Reach}
use swarm_discovery.Node.{Node, HasSocketFor, Step, receive, Reach, next}

-- A node whose receiver has just handed a message on.
abbrev pub with_message : {Name Os : Type 0} → MdnsMsg → Node Name Os → Node Name Os
with_message msg s = record s { mailbox = s.mailbox ++ msg ∷ [] }

-- A node that has just taken in a response.
abbrev pub taken_in : {Name Os : Type 0} → BtreeMap Str Peer → Node Name Os → Node Name Os
taken_in m s = with_message (response m) s

module _ {Name Os : Type 0} (n : NameApi Name) (codec : Codec Name) (f : FloatOps)
    (api : SocketApi Os) (service_name : Name) (d : Discoverer) (sockets : Sockets) {OsA : Type 0}
    (codec_a : Codec Name) (api_a : SocketApi OsA) (d_a : Discoverer) (sockets_a : Sockets)
    (names : ServiceNames n d_a.peer_id service_name) where
  -- Discovery: let one node, which the builder has made, be in any state that it reaches, with at
  -- least one address, with an identifier that is UTF-8, and with attributes whose keys and values are
  -- UTF-8, the keys not empty and without `=`, and let the bytes of a packet parse as the response that
  -- its sender would send in this state. Let the names of the service parse as `ServiceNames` says.
  -- Another node of the same service, in any state that it reaches, whatever messages wait in it, can
  -- take in this packet, as a response for its sender, if it has a socket for IPv6 in case the packet
  -- comes from such an address; and when its actors have then handled, in whatever order they run, all
  -- that waits, its application knows the first node with exactly its present addresses and
  -- attributes, seen at the time of the packet.
  pub node-learns :
      {s t : Node Name Os} {a : Node Name OsA} {k : ℕ} (p : Peer) (msg : Message Name)
      (now : Instant) (bytes : List ℕ) (from : IpAddr)
      → Built d_a
      → Reach n codec_a f api_a service_name d_a sockets_a a
      → BtreeMap.get a.sender.discoverer.peer_id a.sender.discoverer.peers ≡ some p
      → a.sender.response_msg ≡ some msg
      → is_empty p.addrs ≡ false
      → All IsPlain p.txt
      → IsUtf8 d_a.peer_id
      → codec.from_vec bytes ≡ some msg
      → Reach n codec f api service_name d sockets s
      → HasSocketFor from s.guardian.sockets
      → Rounds n codec f api service_name d (taken_in (heard d_a.peer_id now p) s) k t
      → IsAtRest t
      → Step n codec f api service_name d s (taken_in (heard d_a.peer_id now p) s)
        × (BtreeMap.get d_a.peer_id t.app ≡ some (record p { last_seen = now }))
  node-learns {s} {t} {a} p msg now bytes from built reached_a own made addressed plain utf8 parsed
        r via rounds rest =
      let received =
        packet-heard n codec f api service_name d sockets codec_a api_a d_a sockets_a names p msg
          now bytes from built reached_a own made plain utf8 parsed in
      let step : Step n codec f api service_name d s (taken_in (heard d_a.peer_id now p) s) =
        receive now bytes from (response (heard d_a.peer_id now p)) via received in
      let reached = Rounds-Reach n codec f api service_name d (next r step) rounds in
      (
        step,
        ap (BtreeMap.get d_a.peer_id) (app_knows_table n codec f api service_name d reached)
            ∙ response-Learnt n codec f api service_name d sockets (heard d_a.peer_id now p)
                (λ st. BtreeMap.get d_a.peer_id st.table ≡ some (record p { last_seen = now }))
                (λ st. learnt_peer d_a.peer_id now p st addressed) s.mailbox (next r step) refl
                rounds rest,
      )

  -- The same, whatever the receiver has made of the packet.
  pub packet-Learnt :
      {s t : Node Name Os} {a : Node Name OsA} {k : ℕ} (p : Peer) (msg : Message Name)
      (now : Instant) (bytes : List ℕ) (from : IpAddr) (got : MdnsMsg)
      → Built d_a
      → Reach n codec_a f api_a service_name d_a sockets_a a
      → BtreeMap.get a.sender.discoverer.peer_id a.sender.discoverer.peers ≡ some p
      → a.sender.response_msg ≡ some msg
      → is_empty p.addrs ≡ false
      → All IsPlain p.txt
      → IsUtf8 d_a.peer_id
      → codec.from_vec bytes ≡ some msg
      → Reach n codec f api service_name d sockets s
      → HasSocketFor from s.guardian.sockets
      → handle_msg n codec now bytes service_name from ≡ ok (some got)
      → Rounds n codec f api service_name d (with_message got s) k t
      → IsAtRest t
      → BtreeMap.get d_a.peer_id t.app ≡ some (record p { last_seen = now })
  packet-Learnt {s} {t} {a} {k} p msg now bytes from got built reached_a own made addressed plain
        utf8 parsed r via handled rounds rest =
      let received =
        packet-heard n codec f api service_name d sockets codec_a api_a d_a sockets_a names p msg
          now bytes from built reached_a own made plain utf8 parsed in
      let same : got ≡ response (heard d_a.peer_id now p) = cc (sym handled ∙ received) in
      (node-learns p msg now bytes from built reached_a own made addressed plain utf8 parsed r via
        (subst (λ m. Rounds n codec f api service_name d (with_message m s) k t) same rounds)
        rest).1
