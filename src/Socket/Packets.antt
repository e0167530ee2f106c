-- ===== src/Socket/Packets.antt =====
-- The packets of src/socket.rs: when `Sockets::send_msg` can send, and when it panics.
use swarm_discovery.Prelude.{ℕ, ◌≡◌, Bool, true, false, not, ◌||◌, List, Option, none, some, arith}
use swarm_discovery.Std.HashMap
use swarm_discovery.Std.HashMap.{HashMap}
use swarm_discovery.Std.Ord.{nat_ord}
use swarm_discovery.Std.Outcome.{Outcome, ok, panic}
use swarm_discovery.Std.Text.{is_empty}
use swarm_discovery.Dns.{Codec, Message}
use swarm_discovery.Peer.{
  Mode, v4, v6, any, IpClass, v4_only, v6_only, v4_and_v6, auto, has_v4, has_v6,
}
use swarm_discovery.Socket.{
  sockets_required, sockets_auto, SocketApi, Sockets, good, interface_sockets, new_sockets,
  send_single, send_msg, send_msg_multi_interface_v4,
}

abbrev pub is_some : {A : Type 0} → Option A → Bool
is_some none = false
is_some (some x) = true

abbrev pub is_panic : {A : Type 0} → Outcome A → Bool
is_panic panic = true
is_panic (ok x) = false

-- There is a socket for the mode.
abbrev pub serves : Mode → Sockets → Bool
serves v4 s = not (is_empty s.interfaces) || is_some s.v4_socket
serves v6 s = is_some s.v6_socket
serves any s = not (is_empty s.interfaces) || is_some s.v4_socket || is_some s.v6_socket

module _ {Name : Type 0} (codec : Codec Name) where
  -- For a message that can be encoded, `send_msg` panics exactly if there is no socket for the mode.
  pub send_msg_panics :
      (s : Sockets) (msg : Message Name) (mode : Mode) (bytes : List ℕ)
      → codec.to_vec msg ≡ some bytes
      → is_panic (send_msg codec s msg mode) ≡ not (serves mode s)
  unfolding send_msg send_single send_msg_multi_interface_v4
  send_msg_panics s msg mode bytes e = rw (e, send_msg) ground (arith, mode, s)

-- The modes in which a node of a class may send.
abbrev pub is_used : IpClass → Mode → Bool
is_used class v4 = has_v4 class
is_used class v6 = has_v6 class
is_used class any = true

module _ {Os : Type 0} (api : SocketApi Os) where
  -- If the IPv4 socket is required, then it is there.
  required_lem :
      (b4 b6 : Bool) (interfaces : HashMap ℕ ℕ) (os os' : Os) (s : Sockets)
      → sockets_required api b4 b6 interfaces os ≡ (good s, os')
      → (b4 ≡ true → is_some s.v4_socket ≡ true) × (b6 ≡ true → is_some s.v6_socket ≡ true)
  required_lem b4 b6 interfaces os os' s e = ground (arith, b4, b6)

  auto_lem :
      (interfaces : HashMap ℕ ℕ) (os os' : Os) (s : Sockets)
      → sockets_auto api interfaces os ≡ (good s, os')
      → is_some s.v4_socket || is_some s.v6_socket ≡ true
  auto_lem interfaces os os' s e = ground arith

  -- When `Sockets::new` succeeds, then the node has a socket for each mode in which its class lets it
  -- send: IPv4 or IPv6 if the class requires it, and `any` in every case, also if only one of the
  -- two sockets could be created.
  pub new_sockets-serves :
      (class : IpClass) (multicast_interfaces : List ℕ) (os os' : Os) (s : Sockets) (mode : Mode)
      → new_sockets api class multicast_interfaces os ≡ (good s, os')
      → is_used class mode ≡ true
      → serves mode s ≡ true
  unfolding new_sockets has_v4 has_v6
  new_sockets-serves auto ifs os os' s mode e u =
      let found =
        auto_lem (interface_sockets api ifs HashMap.empty os).0
          (interface_sockets api ifs HashMap.empty os).1 os' s e in
      ground (arith, mode)
  new_sockets-serves v4_only ifs os os' s mode e u =
      let found =
        required_lem true false (interface_sockets api ifs HashMap.empty os).0
          (interface_sockets api ifs HashMap.empty os).1 os' s e in
      ground (arith, mode)
  new_sockets-serves v6_only ifs os os' s mode e u =
      let found =
        required_lem false true (interface_sockets api ifs HashMap.empty os).0
          (interface_sockets api ifs HashMap.empty os).1 os' s e in
      ground (arith, mode)
  new_sockets-serves v4_and_v6 ifs os os' s mode e u =
      let found =
        required_lem true true (interface_sockets api ifs HashMap.empty os).0
          (interface_sockets api ifs HashMap.empty os).1 os' s e in
      ground (arith, mode)
