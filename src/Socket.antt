-- ===== src/Socket.antt =====
-- src/socket.rs: the sockets of a node. socket2 and the operating system are a parameter, with a
-- state of their own; a socket is the number of its descriptor, and an IPv4 address its 32 bits.
pub mod Packets
use swarm_discovery.Prelude.{
  ℕ, Bool, true, false, not, ◌&&◌, List, [], ◌∷◌, ◌++◌, Option, none, some, if◌then◌else◌,
}
use swarm_discovery.Std.HashMap
use swarm_discovery.Std.HashMap.{HashMap}
use swarm_discovery.Std.Net
use swarm_discovery.Std.Net.{IpAddr, ipv4_new}
use swarm_discovery.Std.Ord.{nat_ord}
use swarm_discovery.Std.Outcome.{Outcome, ok, panic, expect}
use swarm_discovery.Std.Text.{is_empty}
use swarm_discovery.Dns.{Codec, Message}
use swarm_discovery.Peer.{Mode, v4, v6, any, IpClass, auto, has_v4, has_v6}

abbrev pub mdns_port : ℕ
mdns_port = 5353

abbrev pub mdns_ipv4 : ℕ
mdns_ipv4 = ipv4_new 224 0 0 251

abbrev pub mdns_ipv6 : ℕ
mdns_ipv6 = 0xff0200000000000000000000000000fb

-- `IP`, in errors, and the domain of a socket
pub data Domain : Type 0 where
  ipv4 ipv6 : Domain

abbrev pub IoError : Type 0
IoError = ℕ

pub data SocketError : Type 0 where
  new_socket reuse_address reuse_port bind set_multicast_loop join_multicast multicast_ttl
        set_nonblocking udp_socket :
      Domain → IoError → SocketError
  cannot_bind : SocketError

pub data Result (E A : Type 0) : Type 0 where
  good : A → Result E A
  fail : E → Result E A

-- The calls on a socket, before it is handed to tokio.
pub data SocketCall : Type 0 where
  call_reuse_address call_reuse_port call_loop_v4 call_loop_v6 call_nonblocking : Bool → SocketCall
  call_bind : IpAddr → ℕ → SocketCall
  call_join_v4 call_join_v6 : (group interface : ℕ) → SocketCall
  call_ttl_v4 : ℕ → SocketCall

pub record SocketApi (Os : Type 0) : Type 0 where
  pub new : Domain → Os → Result IoError ℕ × Os
  pub call : ℕ → SocketCall → Os → Result IoError (Unit {0}) × Os
  -- `UdpSocket::from_std`
  pub from_std : ℕ → Os → Result IoError ℕ × Os

pub record Sockets : Type 0 where
  pub v4_socket : Option ℕ
  pub v6_socket : Option ℕ
  pub interfaces : HashMap ℕ ℕ

module _ {Os : Type 0} (api : SocketApi Os) where
  abbrev pub M : Type 0 → Type 0
  M A = Os → Result SocketError A × Os

  infixl 5 ◌>>=◌ ◌>>◌
  abbrev ◌>>=◌ : {A B : Type 0} → M A → (A → M B) → M B
  ◌>>=◌ m g os = let (r, os') = m os in elim r [ good a ↦ g a os' | fail e ↦ (fail e, os') ]

  abbrev ◌>>◌ : {B : Type 0} → M (Unit {0}) → M B → M B
  m >> g = m >>= λ _. g

  -- `map_err`
  abbrev map_err : {A : Type 0} → (Os → Result IoError A × Os) → (IoError → SocketError) → M A
  map_err m e os =
      let (r, os') = m os in (elim r [ good a ↦ good a | fail source ↦ fail (e source) ], os')

  abbrev interface_or_any : Option ℕ → ℕ
  interface_or_any none = 0
  interface_or_any (some addr) = addr

  unfoldable pub socket_v4 : Option ℕ → M ℕ
  socket_v4 interface_addr = do
    socket ← map_err (api.new ipv4) (new_socket ipv4)
    map_err (api.call socket (call_reuse_address true)) (reuse_address ipv4)
    map_err (api.call socket (call_reuse_port true)) (reuse_port ipv4)
    map_err (api.call socket (call_bind (Net.v4 (interface_or_any interface_addr)) mdns_port))
        (bind ipv4)
    map_err (api.call socket (call_loop_v4 true)) (set_multicast_loop ipv4)
    map_err (api.call socket (call_join_v4 mdns_ipv4 (interface_or_any interface_addr)))
        (join_multicast ipv4)
    map_err (api.call socket (call_ttl_v4 16)) (multicast_ttl ipv4)
    map_err (api.call socket (call_nonblocking true)) (set_nonblocking ipv4)
    map_err (api.from_std socket) (udp_socket ipv4)

  unfoldable pub socket_v6 : M ℕ
  socket_v6 = do
    socket ← map_err (api.new ipv6) (new_socket ipv6)
    map_err (api.call socket (call_reuse_address true)) (reuse_address ipv6)
    map_err (api.call socket (call_reuse_port true)) (reuse_port ipv6)
    map_err (api.call socket (call_bind (Net.v6 0) mdns_port)) (bind ipv6)
    map_err (api.call socket (call_loop_v6 true)) (set_multicast_loop ipv6)
    map_err (api.call socket (call_join_v6 mdns_ipv6 0)) (join_multicast ipv6)
    map_err (api.call socket (call_nonblocking true)) (set_nonblocking ipv6)
    map_err (api.from_std socket) (udp_socket ipv6)

  -- The loop over the interfaces: one whose socket cannot be created is left out.
  unfoldable pub interface_sockets : List ℕ → HashMap ℕ ℕ → Os → HashMap ℕ ℕ × Os
  unfolding socket_v4
  interface_sockets [] interfaces os = (interfaces, os)
  interface_sockets (addr ∷ addrs) interfaces os =
      let (r, os') = socket_v4 (some addr) os in
      interface_sockets addrs
        (elim r [ good socket ↦ HashMap.insert addr socket interfaces | fail _ ↦ interfaces ]) os'

  abbrev result_ok : Result SocketError ℕ → Option ℕ
  result_ok (good socket) = some socket
  result_ok (fail _) = none

  abbrev both_none : Option ℕ → Option ℕ → Bool
  both_none none none = true
  both_none _ _ = false

  -- `b.then(|| m).transpose()?`
  abbrev when : Bool → M ℕ → M (Option ℕ)
  when true m os = let (r, os') = m os in (elim r [ good a ↦ good (some a) | fail e ↦ fail e ], os')
  when false m os = (good none, os)

  abbrev pub sockets_auto : HashMap ℕ ℕ → M Sockets
  sockets_auto interfaces os =
      let (r4, os4) = socket_v4 none os in
      let (r6, os6) = socket_v6 os4 in
      if both_none (result_ok r4) (result_ok r6) then (fail cannot_bind, os6) else (
        good (record {
          v4_socket = result_ok r4;
          v6_socket = result_ok r6;
          interfaces = interfaces;
        }),
        os6,
      )

  abbrev pub sockets_required : Bool → Bool → HashMap ℕ ℕ → M Sockets
  sockets_required want_v4 want_v6 interfaces = do
    socket4 ← when want_v4 (socket_v4 none)
    socket6 ← when want_v6 socket_v6
    λ os. (good (record { v4_socket = socket4; v6_socket = socket6; interfaces = interfaces }), os)

  -- `Sockets::new`
  unfoldable pub new_sockets : IpClass → List ℕ → M Sockets
  unfolding interface_sockets socket_v4 socket_v6 has_v4 has_v6
  new_sockets class multicast_interfaces os =
      let (interfaces, os') = interface_sockets multicast_interfaces HashMap.empty os in
      elim class [
        | auto ↦ sockets_auto interfaces os'
        | other ↦ sockets_required (has_v4 other) (has_v6 other) interfaces os'
      ]

  -- `meanwhile` is what other holders of the lock do to the map between the two accesses.
  unfoldable pub add_interface_v4 :
      (HashMap ℕ ℕ → HashMap ℕ ℕ) → ℕ → Sockets → Os → Result SocketError Sockets × Os
  unfolding socket_v4
  add_interface_v4 meanwhile addr sockets os =
      if HashMap.contains_key addr sockets.interfaces
      then (good sockets, os)
      else let (r, os') = socket_v4 (some addr) os in
        let interfaces' = meanwhile sockets.interfaces in
        elim r [
          | fail e ↦ (fail e, os')
          | good socket ↦ (
            good (record sockets {
              interfaces =
                  if HashMap.contains_key addr interfaces'
                  then interfaces'
                  else HashMap.insert addr socket interfaces';
            }),
            os',
          )
        ]

unfoldable pub remove_interface_v4 : ℕ → Sockets → Sockets × Bool
remove_interface_v4 addr sockets =
    if HashMap.contains_key addr sockets.interfaces
    then (record sockets { interfaces = HashMap.remove addr sockets.interfaces }, true)
    else (sockets, false)

unfoldable pub get_interface_socket_v4 : ℕ → Sockets → Option ℕ
get_interface_socket_v4 addr sockets = HashMap.get addr sockets.interfaces

unfoldable pub get_all_interface_addresses_v4 : Sockets → List ℕ
get_all_interface_addresses_v4 sockets = HashMap.keys sockets.interfaces

-- `send_to`: the socket, the group to which its bytes go (always on the mDNS port). A failure of the
-- call is logged, and changes nothing.
pub record Datagram : Type 0 where
  pub socket : ℕ
  pub group : IpAddr
  pub bytes : List ℕ

unfoldable pub send_msg_multi_interface_v4 : List ℕ → HashMap ℕ ℕ → List Datagram
send_msg_multi_interface_v4 bytes [] = []
send_msg_multi_interface_v4 bytes ((addr, socket) ∷ rest) =
    record { socket = socket; group = Net.v4 mdns_ipv4; bytes = bytes }
    ∷ send_msg_multi_interface_v4 bytes rest

abbrev pub is_v4_or_any : Mode → Bool
is_v4_or_any v6 = false
is_v4_or_any _ = true

abbrev on_v4 : List ℕ → ℕ → List Datagram
on_v4 bytes socket = record { socket = socket; group = Net.v4 mdns_ipv4; bytes = bytes } ∷ []

abbrev on_v6 : List ℕ → ℕ → List Datagram
on_v6 bytes socket = record { socket = socket; group = Net.v6 mdns_ipv6; bytes = bytes } ∷ []

-- Where `as_ref().unwrap()` meets `None` the node panics.
abbrev through : (ℕ → List Datagram) → Option ℕ → Outcome (List Datagram)
through send none = panic
through send (some socket) = ok (send socket)

unfoldable pub send_single : List ℕ → Mode → Sockets → Outcome (List Datagram)
send_single bytes v4 sockets = through (on_v4 bytes) sockets.v4_socket
send_single bytes v6 sockets = through (on_v6 bytes) sockets.v6_socket
send_single bytes any sockets = elim sockets.v4_socket [
  | some socket ↦ ok (on_v4 bytes socket)
  | none ↦ through (on_v6 bytes) sockets.v6_socket
]

-- If the mode is any, a packet goes out on IPv6 too.
abbrev also_v6 : List ℕ → Mode → Option ℕ → List Datagram
also_v6 bytes any (some socket) = on_v6 bytes socket
also_v6 bytes _ _ = []

unfoldable pub send_msg :
    {Name : Type 0} → Codec Name → Sockets → Message Name → Mode → Outcome (List Datagram)
unfolding send_single send_msg_multi_interface_v4
send_msg codec sockets msg mode = elim (codec.to_vec msg) [
  | none ↦ ok []
  | some bytes ↦
      if not (is_empty sockets.interfaces) && is_v4_or_any mode
      then ok (
          send_msg_multi_interface_v4 bytes sockets.interfaces
          ++ also_v6 bytes mode sockets.v6_socket)
      else send_single bytes mode sockets
]
