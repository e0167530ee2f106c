-- ===== src/Examples.antt =====
-- The programs of examples/local.rs and examples/multi_interface.rs: how they set a node up, the
-- callback that they give it, and the task that follows the interfaces. `if_addrs` and standard
-- output are left out; what is printed is kept as a list.
pub mod PeerSet
pub mod Interfaces
use swarm_discovery.Prelude.{
  ℕ, ◌+◌, ◌%◌, ◌^◌, Bool, true, false, not, List, [], ◌∷◌, ◌++◌, Option, none, some, if◌then◌else◌,
}
use swarm_discovery.Std.HashMap
use swarm_discovery.Std.HashSet
use swarm_discovery.Std.HashSet.{HashSet, from_list, difference}
use swarm_discovery.Std.Net
use swarm_discovery.Std.Net.{IpAddr}
use swarm_discovery.Std.Ord.{list_ord, nat_ord}
use swarm_discovery.Std.Text.{Str, codes, is_empty}
use swarm_discovery.Std.Time.{Instant}
use swarm_discovery.Discoverer.{
  Discoverer, new_interactive, with_addrs, with_multicast_interfaces_v4,
}
use swarm_discovery.Guard.{DropGuard, add_interface_v4, remove_interface_v4}
use swarm_discovery.Peer.{Peer}

-- What the callback prints.
pub data Printed : Type 0 where
  new_peer_discovered peer_removed : Str → Printed

-- The callback: the identifier is inserted, and removed at once if the peer has no addresses.
unfoldable pub on_peer : Str → Peer → HashSet Str → HashSet Str × List Printed
on_peer peer_id peer peer_set =
    let inserted = HashSet.insert peer_id peer_set in
    let discovered : List Printed =
      if HashSet.contains peer_id peer_set then [] else new_peer_discovered peer_id ∷ [] in
    if is_empty peer.addrs
    then (HashSet.remove peer_id inserted, discovered ++ peer_removed peer_id ∷ [])
    else (inserted, discovered)

-- `addrs.iter().take(1)`
abbrev first_of : List IpAddr → List IpAddr
first_of [] = []
first_of (addr ∷ _) = addr ∷ []

-- The node of examples/local.rs, with the addresses under two ports.
unfoldable pub local_node : Instant → Str → ℕ → List IpAddr → Discoverer
unfolding new_interactive with_addrs
local_node now my_peer_id port addrs =
    with_addrs now ((port + 1) % 2 ^ 16) addrs
      (with_addrs now port (first_of addrs) (new_interactive (codes "swarm") my_peer_id))

-- An interface of `if_addrs`: its address, and whether it is a loopback.
pub record Interface : Type 0 where
  pub ip : IpAddr
  pub is_loopback : Bool

-- The IPv4 addresses of those that are no loopback.
unfoldable pub ipv4_of : List Interface → List ℕ
ipv4_of [] = []
ipv4_of (iface ∷ rest) =
    let others = ipv4_of rest in
    if iface.is_loopback
    then others
    else elim iface.ip [ Net.v4 ipv4 ↦ ipv4 ∷ others | Net.v6 _ ↦ others ]

-- The node of examples/multi_interface.rs.
unfoldable pub multi_interface_node : Instant → Str → ℕ → List IpAddr → List ℕ → Discoverer
unfolding local_node with_multicast_interfaces_v4
multi_interface_node now my_peer_id port addrs initial_ips =
    with_multicast_interfaces_v4 initial_ips (local_node now my_peer_id port addrs)

unfoldable pub add_each : List ℕ → DropGuard → DropGuard
unfolding add_interface_v4
add_each [] guard = guard
add_each (new_if ∷ rest) guard = add_each rest (add_interface_v4 new_if guard)

unfoldable pub remove_each : List ℕ → DropGuard → DropGuard
unfolding remove_interface_v4
remove_each [] guard = guard
remove_each (old_if ∷ rest) guard = remove_each rest (remove_interface_v4 old_if guard)

-- A round of the task, with what `get_if_addrs` returns: the known interfaces, and the guard.
unfoldable pub monitor : Option (List Interface) → HashSet ℕ × DropGuard → HashSet ℕ × DropGuard
unfolding ipv4_of from_list difference add_each remove_each
monitor none (known, guard) = (known, guard)
monitor (some ifaces) (known, guard) =
    let current = from_list (ipv4_of ifaces) HashMap.empty in
    (current, remove_each (difference known current) (add_each (difference current known) guard))

unfoldable pub monitor_all :
    List (Option (List Interface)) → HashSet ℕ × DropGuard → HashSet ℕ × DropGuard
unfolding monitor
monitor_all [] st = st
monitor_all (listed ∷ rest) st = monitor_all rest (monitor listed st)
