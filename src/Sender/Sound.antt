-- ===== src/Sender/Sound.antt =====
-- The node's own peer, as the builder of src/lib.rs and the updates of src/sender.rs leave it.
use swarm_discovery.Prelude.{
  All-append, ◌<◌, ℕ, ◌≡◌, refl, subst, List, [], ◌∷◌, Option, none, some, arith, All, ◌++◌, map,
}
use swarm_discovery.Std.BtreeMap
use swarm_discovery.Std.BtreeMap.{BtreeMap, IsOrdered}
use swarm_discovery.Std.BtreeMap.Laws.{
  AllValues, AllValues-remove, AllValues-entry, AllValues-imp, insert-IsOrdered,
}
use swarm_discovery.Std.Float.{F32}
use swarm_discovery.Std.Net.{IpAddr, ip_ord}
use swarm_discovery.Std.Ord.{list_ord, nat_ord, pair_ord}
use swarm_discovery.Std.Sort.Laws.{dedup-sort_unstable-IsAscending}
use swarm_discovery.Std.Sort.Elements.{All-sort_unstable, All-dedup}
use swarm_discovery.Std.Text.{Str}
use swarm_discovery.Std.Time.{Duration, Instant}
use swarm_discovery.Discoverer.{
  Discoverer, new, new_interactive, with_protocol, with_cadence, with_response_rate, with_ip_class,
  with_multicast_interfaces_v4, with_addrs, with_txt_attributes, insert_attributes, my_txt,
  update_me, TxtResult, ok, err,
}
use swarm_discovery.Guard.Calls.{IsSendable}
use swarm_discovery.Messages.{
  GuardianInput, remove_all, remove_port, remove_addr, add_addr, set_txt, remove_txt, add_interface,
  remove_interface,
}
use swarm_discovery.Peer.{Peer, TxtData, new_peer, IpClass, Protocol}
use swarm_discovery.Sender.Response.{update_peers, push_each}
use swarm_discovery.Sender.Ports.{IsU16, HasPorts}
use swarm_discovery.Sender.Updates.{IsTidy, get_mut-AllValues, found_value}
use swarm_discovery.Sender.Setup.{inserted-cons}
use swarm_discovery.Std.Sort.{sort_unstable, dedup}
use swarm_discovery.Wire.Lengths.{Fits, insert-Fits, insert_attributes-Fits}

remove-Fits : (key : Str) (t : TxtData) → All Fits t → All Fits (BtreeMap.remove key t)
unfolding BtreeMap.remove
remove-Fits key [] h = tt
remove-Fits key ((j, v) ∷ t) h = ground (arith, remove-Fits key t h.1)

abbrev pub FitTxt : Peer → Type 0
FitTxt p = All Fits p.txt

pub update_peers-FitTxt :
    (now : Instant) (input : GuardianInput) (d : Discoverer)
    → IsSendable input
    → AllValues FitTxt d.peers
    → AllValues FitTxt (update_peers now input d).peers
unfolding update_peers update_me new_peer
update_peers-FitTxt now remove_all d s h = AllValues-remove FitTxt d.peer_id d.peers h
update_peers-FitTxt now (remove_port port) d s h =
    get_mut-AllValues FitTxt d.peer_id _ d.peers (λ p t. t) h
update_peers-FitTxt now (remove_addr addr) d s h =
    get_mut-AllValues FitTxt d.peer_id _ d.peers (λ p t. t) h
update_peers-FitTxt now (add_addr port addrs) d s h =
    AllValues-entry FitTxt d.peer_id (new_peer now)
      (λ me. record me { addrs = push_each port addrs me.addrs }) d.peers tt (λ p t. t) h
update_peers-FitTxt now (set_txt key value) d s h =
    AllValues-entry FitTxt d.peer_id (new_peer now)
      (λ me. record me { txt = BtreeMap.insert key value me.txt }) d.peers tt
      (λ p t. insert-Fits key value p.txt s t) h
update_peers-FitTxt now (remove_txt key) d s h =
    get_mut-AllValues FitTxt d.peer_id (λ me. record me { txt = BtreeMap.remove key me.txt })
      d.peers (λ p t. remove-Fits key p.txt t) h
update_peers-FitTxt now (add_interface addr) d s h = h
update_peers-FitTxt now (remove_interface addr) d s h = h

-- What the builder can make; a port is a `u16`.
pub data Built : Discoverer → Type 0 where
  from_new : (name peer_id : Str) → Built (new name peer_id)
  from_interactive : (name peer_id : Str) → Built (new_interactive name peer_id)
  protocol_set : {d : Discoverer} (p : Protocol) → Built d → Built (with_protocol p d)
  cadence_set : {d : Discoverer} (tau : Duration) → Built d → Built (with_cadence tau d)
  rate_set : {d : Discoverer} (phi : F32) → Built d → Built (with_response_rate phi d)
  class_set : {d : Discoverer} (class : IpClass) → Built d → Built (with_ip_class class d)
  interfaces_set :
      {d : Discoverer} (ifs : List ℕ) → Built d → Built (with_multicast_interfaces_v4 ifs d)
  addrs_added :
      {d : Discoverer} (now : Instant) (port : ℕ) (addrs : List IpAddr)
      → port < 65536
      → Built d
      → Built (with_addrs now port addrs d)
  txt_added :
      {d d' : Discoverer} (now : Instant) (attributes : List (Str × Option Str))
      → with_txt_attributes now attributes d ≡ ok d'
      → Built d
      → Built d'

pub record IsSound (d : Discoverer) : Type 0 where
  pub tidy : AllValues IsTidy d.peers
  pub fit : AllValues FitTxt d.peers
  pub ports : AllValues HasPorts d.peers

-- The attributes of the node's own peer have what all peers' attributes have.
my_txt_of :
    (P : TxtData → Type 0) (d : Discoverer)
    → P BtreeMap.empty
    → AllValues (λ (p : Peer). P p.txt) d.peers
    → P (my_txt d)
my_txt_of P d z h =
    found (BtreeMap.get d.peer_id d.peers)
      (λ p. found_value (λ (q : Peer). P q.txt) d.peer_id d.peers p)
  where
    found :
        (o : Option Peer)
        → ((p : Peer) → o ≡ some p → AllValues (λ (q : Peer). P q.txt) d.peers → P p.txt)
        → P (elim o as (λ _. TxtData) [ none ↦ BtreeMap.empty | some me ↦ me.txt ])
    found none k = z
    found (some p) k = k p refl h

insert_attributes-IsOrdered :
    (attributes : List (Str × Option Str)) (t t' : TxtData)
    → IsOrdered t
    → insert_attributes attributes t ≡ ok t'
    → IsOrdered t'
unfolding insert_attributes
insert_attributes-IsOrdered [] t t' h e = let same : t ≡ t' = ground arith in subst IsOrdered same h
insert_attributes-IsOrdered ((key, value) ∷ rest) t t' h e =
    insert_attributes-IsOrdered rest (BtreeMap.insert key value t) t'
      (insert-IsOrdered key value t h) (inserted-cons key value rest t t' e)

with_txt_attributes-IsSound :
    (now : Instant) (attributes : List (Str × Option Str)) (d d' : Discoverer)
    → with_txt_attributes now attributes d ≡ ok d'
    → IsSound d
    → IsSound d'
unfolding with_txt_attributes update_me new_peer
with_txt_attributes-IsSound now attributes d d' e h =
    taken (insert_attributes attributes (my_txt d)) refl e
  where
    taken :
        (r : TxtResult TxtData)
        → insert_attributes attributes (my_txt d) ≡ r
        → elim r as (λ _. TxtResult Discoverer) [
          | err x ↦ err x
          | ok t ↦ ok (update_me now (λ me. record me { txt = t }) d)
        ]
          ≡ ok d'
        → IsSound d'
    taken (err x) q e' = cc
    taken (ok t) q e' =
        let same : update_me now (λ me. record me { txt = t }) d ≡ d' = ground arith in
        let ordered =
          insert_attributes-IsOrdered attributes (my_txt d) t
            (my_txt_of IsOrdered d tt
              (AllValues-imp (λ (p : Peer) (h : IsTidy p). h.ordered) d.peers h.tidy))
            q in
        let fit =
          insert_attributes-Fits attributes (my_txt d) t (my_txt_of (All Fits) d tt h.fit) q in
        subst IsSound same (record {
          tidy =
              AllValues-entry IsTidy d.peer_id (new_peer now) (λ me. record me { txt = t }) d.peers
                (record { ascending = tt; ordered = tt })
                (λ p k. record { ascending = k.ascending; ordered = ordered }) h.tidy;
          fit =
              AllValues-entry FitTxt d.peer_id (new_peer now) (λ me. record me { txt = t }) d.peers
                tt (λ p k. fit) h.fit;
          ports =
              AllValues-entry HasPorts d.peer_id (new_peer now) (λ me. record me { txt = t })
                d.peers tt (λ p k. k) h.ports;
        })

offered_ports :
    (port : ℕ) (addrs : List IpAddr) → port < 65536 → All IsU16 (map (λ addr. (addr, port)) addrs)
offered_ports port [] b = tt
offered_ports port (addr ∷ addrs) b = (b, offered_ports port addrs b)

with_addrs-IsSound :
    (now : Instant) (port : ℕ) (addrs : List IpAddr) (d : Discoverer)
    → port < 65536
    → IsSound d
    → IsSound (with_addrs now port addrs d)
unfolding with_addrs update_me new_peer
with_addrs-IsSound now port addrs d b h =
    let added : Peer → Peer = λ me. record me {
      addrs = dedup (sort_unstable (me.addrs ++ map (λ addr. (addr, port)) addrs));
    } in
    record {
      tidy =
          AllValues-entry IsTidy d.peer_id (new_peer now) added d.peers
            (record { ascending = tt; ordered = tt })
            (λ p k. record { ascending = dedup-sort_unstable-IsAscending _; ordered = k.ordered })
            h.tidy;
      fit = AllValues-entry FitTxt d.peer_id (new_peer now) added d.peers tt (λ p k. k) h.fit;
      ports =
          AllValues-entry HasPorts d.peer_id (new_peer now) added d.peers tt
            (λ p k. All-dedup IsU16 _ (
              All-sort_unstable IsU16 _
                (All-append IsU16 p.addrs _ k (offered_ports port addrs b))))
            h.ports;
    }

-- Whatever the builder makes, the addresses stand in strict order and have 16-bit ports, the attributes
-- are ordered by their keys, and each attribute fits into a TXT record.
pub Built-IsSound : {d : Discoverer} → Built d → IsSound d
unfolding new new_interactive with_protocol with_cadence with_response_rate with_ip_class
    with_multicast_interfaces_v4
Built-IsSound (from_new name peer_id) = record { tidy = tt; fit = tt; ports = tt }
Built-IsSound (from_interactive name peer_id) = record { tidy = tt; fit = tt; ports = tt }
Built-IsSound (protocol_set p b) =
    let h = Built-IsSound b in record { tidy = h.tidy; fit = h.fit; ports = h.ports }
Built-IsSound (cadence_set tau b) =
    let h = Built-IsSound b in record { tidy = h.tidy; fit = h.fit; ports = h.ports }
Built-IsSound (rate_set phi b) =
    let h = Built-IsSound b in record { tidy = h.tidy; fit = h.fit; ports = h.ports }
Built-IsSound (class_set class b) =
    let h = Built-IsSound b in record { tidy = h.tidy; fit = h.fit; ports = h.ports }
Built-IsSound (interfaces_set ifs b) =
    let h = Built-IsSound b in record { tidy = h.tidy; fit = h.fit; ports = h.ports }
Built-IsSound (addrs_added {d} now port addrs u b) =
    with_addrs-IsSound now port addrs d u (Built-IsSound b)
Built-IsSound (txt_added {d} {d'} now attributes e b) =
    with_txt_attributes-IsSound now attributes d d' e (Built-IsSound b)
