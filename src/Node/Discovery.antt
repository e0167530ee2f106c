-- ===== src/Node/Discovery.antt =====
-- What a receiver makes of the packet of a node, and what an updater learns from it.
use swarm_discovery.Prelude.{ℕ, ◌≡◌, ap, ◌∙◌, false, List, some, All}
use swarm_discovery.Std.BtreeMap
use swarm_discovery.Std.BtreeMap.{BtreeMap}
use swarm_discovery.Std.Float.{FloatOps}
use swarm_discovery.Std.Net.{IpAddr, ip_ord}
use swarm_discovery.Std.Ord.{list_ord, nat_ord, pair_ord}
use swarm_discovery.Std.Outcome.{ok}
use swarm_discovery.Std.Text.{Str, is_empty, IsUtf8}
use swarm_discovery.Std.Time.{Instant}
use swarm_discovery.Discoverer.{Discoverer}
use swarm_discovery.Dns.{NameApi, Codec, Message}
use swarm_discovery.Messages.{response}
use swarm_discovery.Peer.{Peer}
use swarm_discovery.Receiver.{handle_msg}
use swarm_discovery.Sender.Ports.{HasPorts}
use swarm_discovery.Sender.Sound.{Built}
use swarm_discovery.Sender.Updates.{IsTidy, found_value, get_inserted}
use swarm_discovery.Socket.{SocketApi, Sockets}
use swarm_discovery.Updater
use swarm_discovery.Updater.{gc_interval, insert_peers}
use swarm_discovery.Wire.Attributes.{IsPlain}
use swarm_discovery.Wire.Names.{ServiceNames}
use swarm_discovery.Wire.RoundTrip.{heard, handle_msg-make_response}
use swarm_discovery.Node.Current.{node-Announces}
use swarm_discovery.Node.{Node, Reach}

pub learnt_peer :
    (id : Str) (now : Instant) (p : Peer) (st : Updater.State)
    → is_empty p.addrs ≡ false
    → BtreeMap.get id (insert_peers (heard id now p) st).0.table
      ≡ some (record p { last_seen = now })
unfolding insert_peers
learnt_peer id now p st addressed =
    rw addressed (get_inserted id (record p { last_seen = now }) st.table)

module _ {Name Os : Type 0} (n : NameApi Name) (codec : Codec Name) (f : FloatOps)
    (api : SocketApi Os) (service_name : Name) (d : Discoverer) (sockets : Sockets) where
  abbrev Reached : Node Name Os → Type 0
  Reached s = Reach n codec f api service_name d sockets s

  module _ {OsA : Type 0} (codec_a : Codec Name) (api_a : SocketApi OsA) (d_a : Discoverer)
      (sockets_a : Sockets) (names : ServiceNames n d_a.peer_id service_name) where
    -- The packet of a node is heard as what the node announces.
    pub packet-heard :
        {a : Node Name OsA} (p : Peer) (msg : Message Name) (now : Instant) (bytes : List ℕ)
        (from : IpAddr)
        → Built d_a
        → Reach n codec_a f api_a service_name d_a sockets_a a
        → BtreeMap.get a.sender.discoverer.peer_id a.sender.discoverer.peers ≡ some p
        → a.sender.response_msg ≡ some msg
        → All IsPlain p.txt
        → IsUtf8 d_a.peer_id
        → codec.from_vec bytes ≡ some msg
        → handle_msg n codec now bytes service_name from
          ≡ ok (some (response (heard d_a.peer_id now p)))
    packet-heard {a} p msg now bytes from built reached_a own made plain utf8 parsed =
        let announces = node-Announces n codec_a f api_a service_name d_a built reached_a in
        let tidy : IsTidy p =
          found_value IsTidy a.sender.discoverer.peer_id a.sender.discoverer.peers p own
            announces.sound.tidy in
        let ports : HasPorts p =
          found_value HasPorts a.sender.discoverer.peer_id a.sender.discoverer.peers p own
            announces.sound.ports in
        handle_msg-make_response n d_a.peer_id service_name names codec now bytes from
          a.sender.discoverer p msg utf8 announces.same_id own
          (record {
            ascending = tidy.ascending;
            ports = ports;
            plain = plain;
            ordered = tidy.ordered;
          })
          (announces.current ∙ ap ok made) parsed
