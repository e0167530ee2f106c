-- ===== src/Spawn.antt =====
-- src/lib.rs: `Discoverer::spawn`, which checks what the actors rely on, and its errors. The names
-- and the sockets' operating system are parameters; what is left of `spawn` starts the guardian
-- (`Guardian.start`) with what is returned here.
pub mod Checks
pub mod Panics
use swarm_discovery.Prelude.{ℕ, List, ◌++◌, Option, none, some}
use swarm_discovery.Std.Text.{Str, codes}
use swarm_discovery.Discoverer.{Discoverer}
use swarm_discovery.Dns.{NameApi}
use swarm_discovery.Peer.{Protocol, display}
use swarm_discovery.Socket.{SocketApi, Sockets, SocketError, Result, good, fail, new_sockets}

-- The errors of hickory-proto within them are left out.
pub data SpawnError (Name : Type 0) : Type 0 where
  sockets : SocketError → SpawnError Name
  service_name : Str → Protocol → SpawnError Name
  name_from_peer_id : Str → SpawnError Name
  append_service_name : Name → SpawnError Name

-- What the guardian is started with, besides the discoverer.
pub record Spawned (Name : Type 0) : Type 0 where
  pub node_sockets : Sockets
  pub name_of_service : Name

-- `format!("_{}.{}.local.", self.name, self.protocol)`
abbrev pub service_text : Discoverer → Str
service_text d = codes "_" ++ d.name ++ codes "." ++ display d.protocol ++ codes ".local."

module _ {Name Os : Type 0} (n : NameApi Name) (api : SocketApi Os) where
  -- `append_domain`, whose value is not used.
  unfoldable pub check_appended : Name → Sockets → Name → Result (SpawnError Name) (Spawned Name)
  check_appended peer node_sockets service = elim (n.append_domain peer service) [
    | none ↦ fail (append_service_name service)
    | some _ ↦ good (record { node_sockets = node_sockets; name_of_service = service })
  ]

  unfoldable pub check_peer_id :
      Discoverer → Sockets → Name → Result (SpawnError Name) (Spawned Name)
  unfolding check_appended
  check_peer_id d node_sockets service = elim (n.from_str d.peer_id) [
    | none ↦ fail (name_from_peer_id d.peer_id)
    | some peer ↦ check_appended peer node_sockets service
  ]

  unfoldable pub check_names : Discoverer → Sockets → Result (SpawnError Name) (Spawned Name)
  unfolding check_peer_id display
  check_names d node_sockets = elim (n.from_str (service_text d)) [
    | none ↦ fail (service_name d.name d.protocol)
    | some service ↦ check_peer_id d node_sockets service
  ]

  unfoldable pub spawn : Discoverer → Os → Result (SpawnError Name) (Spawned Name) × Os
  unfolding check_names new_sockets
  spawn d os =
      let (r, os') = new_sockets api d.class d.multicast_interfaces os in
      (elim r [ fail e ↦ fail (sockets e) | good node_sockets ↦ check_names d node_sockets ], os')
