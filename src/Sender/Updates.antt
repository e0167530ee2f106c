-- ===== src/Sender/Updates.antt =====
-- What `update_response` of src/sender.rs does to the node's own peer.
use swarm_discovery.Prelude.{
  ℕ, ◌≡◌, refl, subst, lt, gt, Ordering, sym, ap, ◌∙◌, eq, Bool, false, not, ◌&&◌, ◌||◌, List, [],
  ◌∷◌, ◌++◌, Option, none, some, ◌==◌, arith,
}
use swarm_discovery.Std.BtreeMap
use swarm_discovery.Std.BtreeMap.{BtreeMap, IsOrdered}
use swarm_discovery.Std.BtreeMap.Laws.{
  AllValues, AllValues-insert, AllValues-remove, AllValues-entry, get-insert, get-remove,
  insert-IsOrdered, remove-IsOrdered,
}
use swarm_discovery.Std.Net.{IpAddr, Endpoint, ip_ord, endpoint-IsExact}
use swarm_discovery.Std.Ord.{list_ord, nat_ord, pair_ord, is_eq}
use swarm_discovery.Std.Sort.{contains, IsAscending, sort_unstable, dedup, retain}
use swarm_discovery.Std.Sort.Laws.{
  dedup-sort_unstable-IsAscending, contains-dedup-sort_unstable, contains-append,
  retain-IsAscending, contains-retain,
}
use swarm_discovery.Std.Text.{Str}
use swarm_discovery.Std.Time.{Instant}
use swarm_discovery.Discoverer.{Discoverer, update_me}
use swarm_discovery.Messages.{
  GuardianInput, remove_all, remove_port, remove_addr, add_addr, set_txt, remove_txt, add_interface,
  remove_interface,
}
use swarm_discovery.Peer.{Peer, new_peer}
use swarm_discovery.Sender.Response.{update_peers, push_each}

-- The addresses in strict order, the attributes ordered by their keys.
pub record IsTidy (p : Peer) : Type 0 where
  pub ascending : IsAscending p.addrs
  pub ordered : IsOrdered p.txt

pub push_each-IsAscending :
    (port : ℕ) (addrs : List IpAddr) (es : List Endpoint)
    → IsAscending es
    → IsAscending (push_each port addrs es)
unfolding push_each
push_each-IsAscending port [] es h = h
push_each-IsAscending port (addr ∷ rest) es h =
    push_each-IsAscending port rest _ (dedup-sort_unstable-IsAscending (es ++ (addr, port) ∷ []))

pub found_value :
    (P : Peer → Type 0) (k : Str) (m : BtreeMap Str Peer) (p : Peer)
    → BtreeMap.get k m ≡ some p
    → AllValues P m
    → P p
unfolding BtreeMap.get
found_value P k [] p e h = cc
found_value P k ((j, q) ∷ m) p e h =
    at_head ((list_ord {A = ℕ}).cmp k j) (λ e'. found_value P k m p e' h.1) e
  where
    at_head :
        (c : Ordering)
        → (BtreeMap.get k m ≡ some p → P p)
        → elim c as (λ _. Option Peer) [ eq ↦ some q | _ ↦ BtreeMap.get k m ] ≡ some p
        → P p
    at_head eq later e = let same : q ≡ p = cc in subst P same h.0
    at_head lt later e = later e
    at_head gt later e = later e

pub get_mut-AllValues :
    (P : Peer → Type 0) (k : Str) (f : Peer → Peer) (m : BtreeMap Str Peer)
    → ((p : Peer) → P p → P (f p))
    → AllValues P m
    → AllValues P (BtreeMap.get_mut k f m)
get_mut-AllValues P k f m keep h = changed (BtreeMap.get k m) refl
  where
    changed :
        (o : Option Peer)
        → BtreeMap.get k m ≡ o
        → AllValues P (elim o [ none ↦ m | some p ↦ BtreeMap.insert k (f p) m ])
    changed none e = h
    changed (some p) e = AllValues-insert P k (f p) m (keep p (found_value P k m p e h)) h

-- If the peers of the node have their addresses in strict order, and so without repetition, and
-- their attributes ordered by their keys, then they have so after any update.
pub update_peers-IsTidy :
    (now : Instant) (input : GuardianInput) (d : Discoverer)
    → AllValues IsTidy d.peers
    → AllValues IsTidy (update_peers now input d).peers
unfolding update_peers update_me new_peer
update_peers-IsTidy now remove_all d h = AllValues-remove IsTidy d.peer_id d.peers h
update_peers-IsTidy now (remove_port port) d h =
    get_mut-AllValues IsTidy d.peer_id _ d.peers
      (λ p t. record { ascending = retain-IsAscending _ p.addrs t.ascending; ordered = t.ordered })
      h
update_peers-IsTidy now (remove_addr addr) d h =
    get_mut-AllValues IsTidy d.peer_id _ d.peers
      (λ p t. record { ascending = retain-IsAscending _ p.addrs t.ascending; ordered = t.ordered })
      h
update_peers-IsTidy now (add_addr port addrs) d h =
    AllValues-entry IsTidy d.peer_id (new_peer now)
      (λ me. record me { addrs = push_each port addrs me.addrs }) d.peers
      (record { ascending = tt; ordered = tt })
      (λ p t. record {
        ascending = push_each-IsAscending port addrs p.addrs t.ascending;
        ordered = t.ordered;
      })
      h
update_peers-IsTidy now (set_txt key value) d h =
    AllValues-entry IsTidy d.peer_id (new_peer now)
      (λ me. record me { txt = BtreeMap.insert key value me.txt }) d.peers
      (record { ascending = tt; ordered = tt })
      (λ p t. record {
        ascending = t.ascending;
        ordered = insert-IsOrdered key value p.txt t.ordered;
      })
      h
update_peers-IsTidy now (remove_txt key) d h =
    get_mut-AllValues IsTidy d.peer_id _ d.peers
      (λ p t. record { ascending = t.ascending; ordered = remove-IsOrdered key p.txt t.ordered }) h
update_peers-IsTidy now (add_interface addr) d h = h
update_peers-IsTidy now (remove_interface addr) d h = h

-- The addresses that the node announces.
abbrev addrs_of : Option Peer → List Endpoint
addrs_of none = []
addrs_of (some p) = p.addrs

abbrev pub announces : Endpoint → Discoverer → Bool
announces e d = contains e (addrs_of (BtreeMap.get d.peer_id d.peers))

-- Whether an address is announced after an update, from whether it was before.
abbrev pub after_update : GuardianInput → Endpoint → Bool → Bool
after_update remove_all e before = false
after_update (remove_port port) e before = not (e.1 == port) && before
after_update (remove_addr addr) e before = not (is_eq (ip_ord.cmp e.0 addr)) && before
after_update (add_addr port addrs) e before = before || contains e.0 addrs && (e.1 == port)
after_update _ e before = before

pub contains-push_each :
    (e : Endpoint) (port : ℕ) (addrs : List IpAddr) (es : List Endpoint)
    → contains e (push_each port addrs es) ≡ (contains e es || contains e.0 addrs && (e.1 == port))
unfolding push_each contains pair_ord nat_ord
contains-push_each e port [] es = ground arith
contains-push_each e port (addr ∷ rest) es =
    contains-push_each e port rest (dedup (sort_unstable (es ++ (addr, port) ∷ [])))
    ∙ rw (contains-dedup-sort_unstable, contains-append) ground (arith, e, addr)

pub get_inserted :
    (k : Str) (p : Peer) (m : BtreeMap Str Peer) → BtreeMap.get k (BtreeMap.insert k p m) ≡ some p
get_inserted k p m = rw (get-insert k k p m, (list_ord {A = ℕ}).cmp_refl k) refl

abbrev with_peer : (Peer → Peer) → Option Peer → Option Peer
with_peer f none = none
with_peer f (some p) = some (f p)

get-get_mut :
    (k : Str) (f : Peer → Peer) (m : BtreeMap Str Peer)
    → BtreeMap.get k (BtreeMap.get_mut k f m) ≡ with_peer f (BtreeMap.get k m)
get-get_mut k f m = changed (BtreeMap.get k m) refl
  where
    changed :
        (o : Option Peer)
        → BtreeMap.get k m ≡ o
        → BtreeMap.get k (elim o [ none ↦ m | some p ↦ BtreeMap.insert k (f p) m ]) ≡ with_peer f o
    changed none e = e
    changed (some p) e = get_inserted k (f p) m

contains-retain_only :
    (e : Endpoint) (keep : Endpoint → Bool) (o : Option Peer)
    → contains e (addrs_of (with_peer (λ me. record me { addrs = retain keep me.addrs }) o))
      ≡ (keep e && contains e (addrs_of o))
unfolding contains
contains-retain_only e keep none = ground arith
contains-retain_only e keep (some p) =
    contains-retain e keep (λ x h. ap keep (sym (endpoint-IsExact e x h))) p.addrs

contains_nothing : (e : Endpoint) → contains e [] ≡ false
unfolding contains
contains_nothing e = refl

-- Where the peers of the node are ordered by their identifiers, an update of the node leads to
-- these addresses: none after `RemoveAll`, none on the port or of the address that is removed,
-- those that are added besides those before, and the same ones after any other update.
pub update_peers_addrs :
    (now : Instant) (input : GuardianInput) (d : Discoverer) (e : Endpoint)
    → IsOrdered d.peers
    → announces e (update_peers now input d) ≡ after_update input e (announces e d)
unfolding update_peers update_me new_peer
update_peers_addrs now remove_all d e o =
    ap (λ p. contains e (addrs_of p)) (get-remove d.peer_id d.peer_id d.peers o)
    ∙ rw ((list_ord {A = ℕ}).cmp_refl d.peer_id) (contains_nothing e)
update_peers_addrs now (remove_port port) d e o =
    ap (λ p. contains e (addrs_of p)) (get-get_mut d.peer_id _ d.peers)
    ∙ contains-retain_only e (λ x. not (x.1 == port)) (BtreeMap.get d.peer_id d.peers)
update_peers_addrs now (remove_addr addr) d e o =
    ap (λ p. contains e (addrs_of p)) (get-get_mut d.peer_id _ d.peers)
    ∙ contains-retain_only e (λ x. not (is_eq (ip_ord.cmp x.0 addr)))
        (BtreeMap.get d.peer_id d.peers)
update_peers_addrs now (add_addr port addrs) d e o =
    ap (λ p. contains e (addrs_of p)) (get_inserted d.peer_id _ d.peers)
    ∙ pushed (BtreeMap.get d.peer_id d.peers)
  where
    pushed :
        (o : Option Peer)
        → contains e (
            push_each port addrs (elim o as (λ _. Peer) [ none ↦ new_peer now | some p ↦ p ]).addrs)
          ≡ (contains e (addrs_of o) || contains e.0 addrs && (e.1 == port))
    pushed none = contains-push_each e port addrs []
    pushed (some p) = contains-push_each e port addrs p.addrs
update_peers_addrs now (set_txt key value) d e o =
    ap (λ p. contains e (addrs_of p)) (get_inserted d.peer_id _ d.peers)
    ∙ same (BtreeMap.get d.peer_id d.peers)
  where
    same :
        (o : Option Peer)
        → contains e (elim o as (λ _. Peer) [ none ↦ new_peer now | some p ↦ p ]).addrs
          ≡ contains e (addrs_of o)
    same none = refl
    same (some p) = refl
update_peers_addrs now (remove_txt key) d e o =
    ap (λ p. contains e (addrs_of p)) (get-get_mut d.peer_id _ d.peers)
    ∙ same (BtreeMap.get d.peer_id d.peers)
  where
    same :
        (o : Option Peer)
        → contains e (addrs_of (with_peer (λ me. record me { txt = BtreeMap.remove key me.txt }) o))
          ≡ contains e (addrs_of o)
    same none = refl
    same (some p) = refl
update_peers_addrs now (add_interface addr) d e o = refl
update_peers_addrs now (remove_interface addr) d e o = refl
