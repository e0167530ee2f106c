-- ===== src/Messages.antt =====
-- The messages between the actors: `guardian::Input`, `MdnsMsg` (src/sender.rs) and
-- `updater::Input`. An `ActoRef` is a number.
use swarm_discovery.Prelude.{ℕ, List, Option}
use swarm_discovery.Std.BtreeMap.{BtreeMap}
use swarm_discovery.Std.Net.{IpAddr}
use swarm_discovery.Std.Text.{Str}
use swarm_discovery.Peer.{Peer}

pub data GuardianInput : Type 0 where
  remove_all : GuardianInput
  remove_port : ℕ → GuardianInput
  remove_addr : IpAddr → GuardianInput
  add_addr : ℕ → List IpAddr → GuardianInput
  set_txt : Str → Option Str → GuardianInput
  remove_txt : Str → GuardianInput
  add_interface : IpAddr → GuardianInput
  remove_interface : IpAddr → GuardianInput

pub data MdnsMsg : Type 0 where
  query_v4 query_v6 : MdnsMsg
  response : BtreeMap Str Peer → MdnsMsg
  timeout : ℕ → MdnsMsg
  size_update : ℕ → MdnsMsg
  update : GuardianInput → MdnsMsg

pub data UpdaterInput : Type 0 where
  peers : BtreeMap Str Peer → UpdaterInput
  gc : UpdaterInput
  size_subscription : ℕ → UpdaterInput
