-- ===== src/Discoverer.antt =====
-- src/lib.rs: `Discoverer`, the builder, and the validation of TXT attributes.
use swarm_discovery.Prelude.{
  ℕ, ◌+◌, List, [], ◌∷◌, ◌++◌, Option, none, some, length, map, ltb, if◌then◌else◌,
}
use swarm_discovery.Std.BtreeMap
use swarm_discovery.Std.BtreeMap.{BtreeMap}
use swarm_discovery.Std.Float.{F32, one, two_and_half}
use swarm_discovery.Std.Net.{IpAddr, ip_ord}
use swarm_discovery.Std.Ord.{pair_ord, list_ord, nat_ord}
use swarm_discovery.Std.Sort.{sort_unstable, dedup}
use swarm_discovery.Std.Text.{Str, is_empty}
use swarm_discovery.Std.Time.{Instant, Duration, from_secs, from_millis}
use swarm_discovery.Peer.{Peer, new_peer, IpClass, Protocol, udp, auto}

-- The callback is not a field: its calls are effects of the updater.
pub record Discoverer : Type 0 where
  pub name : Str
  pub protocol : Protocol
  pub peer_id : Str
  pub peers : BtreeMap Str Peer
  pub tau : Duration
  pub phi : F32
  pub class : IpClass
  pub multicast_interfaces : List ℕ

unfoldable pub new : Str → Str → Discoverer
new name peer_id = record {
  name = name;
  protocol = udp;
  peer_id = peer_id;
  peers = BtreeMap.empty;
  tau = from_secs 10;
  phi = one;
  class = auto;
  multicast_interfaces = [];
}

unfoldable pub with_protocol : Protocol → Discoverer → Discoverer
with_protocol p d = record d { protocol = p }

unfoldable pub with_cadence : Duration → Discoverer → Discoverer
with_cadence tau d = record d { tau = tau }

unfoldable pub with_response_rate : F32 → Discoverer → Discoverer
with_response_rate phi d = record d { phi = phi }

unfoldable pub with_ip_class : IpClass → Discoverer → Discoverer
with_ip_class class d = record d { class = class }

unfoldable pub with_multicast_interfaces_v4 : List ℕ → Discoverer → Discoverer
with_multicast_interfaces_v4 interfaces d = record d { multicast_interfaces = interfaces }

unfoldable pub new_interactive : Str → Str → Discoverer
unfolding new with_cadence with_response_rate
new_interactive name peer_id =
    with_response_rate two_and_half (with_cadence (from_millis 700) (new name peer_id))

-- `self.peers.entry(self.peer_id.clone()).or_insert_with(Peer::new)`, then a change of that peer
unfoldable pub update_me : Instant → (Peer → Peer) → Discoverer → Discoverer
unfolding new_peer
update_me now f d = record d { peers = BtreeMap.entry_or_insert d.peer_id (new_peer now) f d.peers }

unfoldable pub with_addrs : Instant → ℕ → List IpAddr → Discoverer → Discoverer
unfolding update_me
with_addrs now port addrs =
    update_me now λ me. record me {
      addrs = dedup (sort_unstable (me.addrs ++ map (λ addr. (addr, port)) addrs));
    }

pub data TxtAttributeError : Type 0 where
  empty_key too_long : TxtAttributeError

pub data TxtResult {ℓ} (A : Type ℓ) : Type ℓ where
  ok : A → TxtResult A
  err : TxtAttributeError → TxtResult A

abbrev pub value_len : Option Str → ℕ
value_len none = 0
value_len (some v) = length v

unfoldable pub validate_txt_attribute : Str → Option Str → TxtResult (Unit {0})
validate_txt_attribute key value =
    if is_empty key
    then err empty_key
    else if ltb 254 (length key + value_len value)
    then err too_long
    else ok tt

-- The loop over the attributes, which stops at the first that is refused.
unfoldable pub insert_attributes :
    List (Str × Option Str) → BtreeMap Str (Option Str) → TxtResult (BtreeMap Str (Option Str))
insert_attributes [] txt = ok txt
insert_attributes ((key, value) ∷ rest) txt = elim (validate_txt_attribute key value) [
  | err e ↦ err e
  | ok _ ↦ insert_attributes rest (BtreeMap.insert key value txt)
]

abbrev pub my_txt : Discoverer → BtreeMap Str (Option Str)
my_txt d = elim (BtreeMap.get d.peer_id d.peers) [ none ↦ BtreeMap.empty | some me ↦ me.txt ]

unfoldable pub with_txt_attributes :
    Instant → List (Str × Option Str) → Discoverer → TxtResult Discoverer
unfolding update_me insert_attributes validate_txt_attribute
with_txt_attributes now attributes d = elim (insert_attributes attributes (my_txt d)) [
  | err e ↦ err e
  | ok txt ↦ ok (update_me now (λ me. record me { txt = txt }) d)
]
