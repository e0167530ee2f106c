-- ===== src/Peer.antt =====
-- src/lib.rs: `Peer`, `TxtData`, `IpClass`, `Protocol` and `Mode` (src/socket.rs).
use swarm_discovery.Prelude.{◌-◌, Bool, true, false, List, [], Option, ◌==◌, length}
use swarm_discovery.Std.BtreeMap
use swarm_discovery.Std.BtreeMap.{BtreeMap}
use swarm_discovery.Std.Ord.{list_ord, nat_ord}
use swarm_discovery.Std.Text.{Str, codes}
use swarm_discovery.Std.Time.{Instant, Duration}
use swarm_discovery.Std.Net.{Endpoint}

pub data IpClass : Type 0 where
  v4_only v6_only v4_and_v6 auto : IpClass

pub data Protocol : Type 0 where
  udp tcp : Protocol

pub data Mode : Type 0 where
  v4 v6 any : Mode

-- `impl Display for Protocol`
unfoldable pub display : Protocol → Str
display udp = codes "_udp"
display tcp = codes "_tcp"

unfoldable pub has_v4 : IpClass → Bool
has_v4 v4_only = true
has_v4 v4_and_v6 = true
has_v4 _ = false

unfoldable pub has_v6 : IpClass → Bool
has_v6 v6_only = true
has_v6 v4_and_v6 = true
has_v6 _ = false

-- A flag has no value.
abbrev pub TxtData : Type 0
TxtData = BtreeMap Str (Option Str)

pub record Peer : Type 0 where
  pub addrs : List Endpoint
  pub last_seen : Instant
  pub txt : TxtData

-- The reading of the clock, `Instant::now()`, is an argument.
unfoldable pub new_peer : Instant → Peer
new_peer now = record { addrs = []; last_seen = now; txt = BtreeMap.empty }

unfoldable pub is_expiry : Peer → Bool
is_expiry p = length p.addrs == 0

-- `Instant::elapsed` stops at zero, as the subtraction does.
unfoldable pub age : Instant → Peer → Duration
age now p = now - p.last_seen

unfoldable pub txt_attribute : Str → Peer → Option (Option Str)
txt_attribute name p = BtreeMap.get name p.txt
