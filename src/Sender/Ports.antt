-- ===== src/Sender/Ports.antt =====
-- No update of the node makes the sender panic, where the names of its service can be made.
use swarm_discovery.Prelude.{
  ℕ, ◌<◌, ◌≡◌, refl, not, ◌==◌, List, [], ◌∷◌, Option, none, All, All-append, Option-cases, inl,
  inr,
}
use swarm_discovery.Std.BtreeMap
use swarm_discovery.Std.BtreeMap.{BtreeMap}
use swarm_discovery.Std.BtreeMap.Laws.{AllValues, AllValues-remove, AllValues-entry}
use swarm_discovery.Std.Net.{IpAddr, Endpoint, ip_ord}
use swarm_discovery.Std.Ord.{list_ord, nat_ord, pair_ord, is_eq}
use swarm_discovery.Std.Outcome.{Outcome, ok}
use swarm_discovery.Std.Sort.Elements.{All-retain, All-sort_unstable, All-dedup}
use swarm_discovery.Std.Text.{Str}
use swarm_discovery.Std.Time.{Instant}
use swarm_discovery.Discoverer.{Discoverer, update_me}
use swarm_discovery.Dns.{NameApi, Message}
use swarm_discovery.Messages.{
  GuardianInput, remove_all, remove_port, remove_addr, add_addr, set_txt, remove_txt, add_interface,
  remove_interface,
}
use swarm_discovery.Peer.{Peer, new_peer}
use swarm_discovery.Sender.Response.{make_response, push_each, update_peers, updated_response}
use swarm_discovery.Sender.Updates.{get_mut-AllValues, found_value}
use swarm_discovery.Wire.Names.{ServiceNames}
use swarm_discovery.Wire.RoundTrip.{make_response-announcement}

-- A `u16` is below 2 ^ 16.
abbrev pub IsU16 : Endpoint → Type 0
IsU16 e = e.1 < 65536

abbrev pub HasPorts : Peer → Type 0
HasPorts p = All IsU16 p.addrs

abbrev pub AddsPorts : GuardianInput → Type 0
AddsPorts (add_addr port addrs) = port < 65536
AddsPorts _ = Unit

push_each-IsU16 :
    (port : ℕ) (addrs : List IpAddr) (es : List Endpoint)
    → port < 65536
    → All IsU16 es
    → All IsU16 (push_each port addrs es)
unfolding push_each
push_each-IsU16 port [] es b h = h
push_each-IsU16 port (addr ∷ rest) es b h = push_each-IsU16 port rest _ b (
    All-dedup IsU16 _
      (All-sort_unstable IsU16 _ (All-append IsU16 es ((addr, port) ∷ []) h (b, tt))))

pub update_peers-HasPorts :
    (now : Instant) (input : GuardianInput) (d : Discoverer)
    → AddsPorts input
    → AllValues HasPorts d.peers
    → AllValues HasPorts (update_peers now input d).peers
unfolding update_peers update_me new_peer
update_peers-HasPorts now remove_all d b h = AllValues-remove HasPorts d.peer_id d.peers h
update_peers-HasPorts now (remove_port port) d b h =
    get_mut-AllValues HasPorts d.peer_id _ d.peers
      (λ p k. All-retain IsU16 (λ e. not (e.1 == port)) p.addrs k) h
update_peers-HasPorts now (remove_addr addr) d b h =
    get_mut-AllValues HasPorts d.peer_id _ d.peers
      (λ p k. All-retain IsU16 (λ e. not (is_eq (ip_ord.cmp e.0 addr))) p.addrs k) h
update_peers-HasPorts now (add_addr port addrs) d b h =
    AllValues-entry HasPorts d.peer_id (new_peer now)
      (λ me. record me { addrs = push_each port addrs me.addrs }) d.peers tt
      (λ p k. push_each-IsU16 port addrs p.addrs b k) h
update_peers-HasPorts now (set_txt key value) d b h =
    AllValues-entry HasPorts d.peer_id (new_peer now)
      (λ me. record me { txt = BtreeMap.insert key value me.txt }) d.peers tt (λ p k. k) h
update_peers-HasPorts now (remove_txt key) d b h =
    get_mut-AllValues HasPorts d.peer_id (λ me. record me { txt = BtreeMap.remove key me.txt })
      d.peers (λ p k. k) h
update_peers-HasPorts now (add_interface addr) d b h = h
update_peers-HasPorts now (remove_interface addr) d b h = h

module _ {Name : Type 0} (n : NameApi Name) (service_name : Name) (peer_id : Str)
    (names : ServiceNames n peer_id service_name) where
  abbrev pub Makes : Outcome (Option (Message Name)) → Type 0
  Makes m = (r : Option (Message Name)) × (m ≡ ok r)

  make_response-Makes :
      (d : Discoverer)
      → d.peer_id ≡ peer_id
      → AllValues HasPorts d.peers
      → Makes (make_response n d service_name)
  unfolding make_response
  make_response-Makes d same h = elim (Option-cases (BtreeMap.get d.peer_id d.peers)) [
    | inl e ↦ (none, rw (e, make_response) refl)
    | inr (p, e) ↦ (
      _,
      make_response-announcement n peer_id service_name names d p same e
          (found_value HasPorts d.peer_id d.peers p e h),
    )
  ]

  pub updated_response-Makes :
      (input : GuardianInput) (d : Discoverer)
      → d.peer_id ≡ peer_id
      → AllValues HasPorts d.peers
      → Makes (updated_response n input d service_name)
  unfolding updated_response
  updated_response-Makes remove_all d same h = make_response-Makes d same h
  updated_response-Makes (remove_port port) d same h = make_response-Makes d same h
  updated_response-Makes (remove_addr addr) d same h = make_response-Makes d same h
  updated_response-Makes (add_addr port addrs) d same h = make_response-Makes d same h
  updated_response-Makes (set_txt key value) d same h = make_response-Makes d same h
  updated_response-Makes (remove_txt key) d same h =
      elim (Option-cases (BtreeMap.get d.peer_id d.peers)) [
        | inl e ↦ (none, rw (e, updated_response) refl)
        | inr (p, e) ↦ rw (e, updated_response) (make_response-Makes d same h)
      ]
  updated_response-Makes (add_interface addr) d same h = (none, refl)
  updated_response-Makes (remove_interface addr) d same h = (none, refl)
