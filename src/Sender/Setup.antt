-- ===== src/Sender/Setup.antt =====
-- The builder of src/lib.rs and the updates of a running node, in src/sender.rs, agree.
use swarm_discovery.Prelude.{
  ℕ, ◌≡◌, refl, sym, ap, ◌∙◌, ◌&&◌, ◌||◌, List, [], ◌∷◌, ◌++◌, Option, none, some, ◌==◌, arith, map,
}
use swarm_discovery.Std.BtreeMap
use swarm_discovery.Std.BtreeMap.{BtreeMap, IsOrdered}
use swarm_discovery.Std.BtreeMap.Laws.{AllValues, AllValues-get, insert_twice}
use swarm_discovery.Std.Net.{IpAddr, Endpoint, ip_ord, endpoint-IsExact}
use swarm_discovery.Std.Ord.{list_ord, nat_ord, pair_ord}
use swarm_discovery.Std.Sort.{contains, IsAscending, sort_unstable, dedup}
use swarm_discovery.Std.Sort.Laws.{
  IsAscending-ext, dedup-sort_unstable-IsAscending, contains-dedup-sort_unstable, contains-append,
}
use swarm_discovery.Std.Text.{Str}
use swarm_discovery.Std.Time.{Instant}
use swarm_discovery.Discoverer.{
  Discoverer, update_me, with_addrs, with_txt_attributes, insert_attributes, my_txt,
  validate_txt_attribute, TxtResult, ok, err,
}
use swarm_discovery.Messages.{add_addr, set_txt}
use swarm_discovery.Peer.{Peer, new_peer}
use swarm_discovery.Sender.Response.{update_peers, push_each}
use swarm_discovery.Sender.Updates.{IsTidy, push_each-IsAscending, contains-push_each, get_inserted}

contains-offered :
    (e : Endpoint) (port : ℕ) (addrs : List IpAddr)
    → contains e (map (λ addr. (addr, port)) addrs) ≡ (contains e.0 addrs && (e.1 == port))
unfolding contains pair_ord nat_ord
contains-offered e port [] = refl
contains-offered e port (addr ∷ rest) = ground (arith, contains-offered e port rest)

push_each_lem :
    (port : ℕ) (addrs : List IpAddr) (es : List Endpoint)
    → IsAscending es
    → push_each port addrs es ≡ dedup (sort_unstable (es ++ map (λ addr. (addr, port)) addrs))
push_each_lem port addrs es h =
    IsAscending-ext endpoint-IsExact _ _ (push_each-IsAscending port addrs es h)
      (dedup-sort_unstable-IsAscending (es ++ map (λ addr. (addr, port)) addrs))
      (λ e.
        contains-push_each e port addrs es
        ∙ ap (λ b. contains e es || b) (sym (contains-offered e port addrs))
        ∙ sym (contains-append e es (map (λ addr. (addr, port)) addrs))
        ∙ sym (contains-dedup-sort_unstable e (es ++ map (λ addr. (addr, port)) addrs)))

-- Where the addresses of the node stand in strict order, addresses that are added while it runs lead
-- to the same node as addresses that it is set up with: to sort and to drop repetitions after each
-- address comes to the same as to do so once.
pub update_peers-with_addrs :
    (now : Instant) (port : ℕ) (addrs : List IpAddr) (d : Discoverer)
    → AllValues IsTidy d.peers
    → update_peers now (add_addr port addrs) d ≡ with_addrs now port addrs d
unfolding update_peers with_addrs update_me new_peer
update_peers-with_addrs now port addrs d h =
    let me : Peer = elim (BtreeMap.get d.peer_id d.peers) [ none ↦ new_peer now | some p ↦ p ] in
    let tidy : IsTidy me =
      AllValues-get IsTidy d.peer_id (new_peer now) d.peers
        (record { ascending = tt; ordered = tt }) h in
    ap (λ es. record d { peers = BtreeMap.insert d.peer_id (record me { addrs = es }) d.peers })
      (push_each_lem port addrs me.addrs tidy.ascending)

-- The updates of a running node that set the attributes one by one.
abbrev pub set_each : Instant → List (Str × Option Str) → Discoverer → Discoverer
set_each now [] d = d
set_each now ((key, value) ∷ rest) d = set_each now rest (update_peers now (set_txt key value) d)

-- An attribute that is accepted is inserted before the others.
pub inserted-cons :
    (key : Str) (value : Option Str) (rest : List (Str × Option Str))
    (t t' : BtreeMap Str (Option Str))
    → insert_attributes ((key, value) ∷ rest) t ≡ ok t'
    → insert_attributes rest (BtreeMap.insert key value t) ≡ ok t'
unfolding insert_attributes
inserted-cons key value rest t t' h = accepted (validate_txt_attribute key value) h
  where
    accepted :
        (r : TxtResult (Unit {0}))
        → elim r as (λ _. TxtResult (BtreeMap Str (Option Str))) [
          | err e ↦ err e
          | ok _ ↦ insert_attributes rest (BtreeMap.insert key value t)
        ]
          ≡ ok t'
        → insert_attributes rest (BtreeMap.insert key value t) ≡ ok t'
    accepted (ok u) h = h
    accepted (err e) h = cc

module _ (now : Instant) (d : Discoverer) where
  abbrev with_txt : BtreeMap Str (Option Str) → Discoverer
  with_txt t = update_me now (λ me. record me { txt = t }) d

  abbrev me_of : Option Peer → Peer
  me_of none = new_peer now
  me_of (some p) = p

  abbrev txt_of : Option Peer → BtreeMap Str (Option Str)
  txt_of none = BtreeMap.empty
  txt_of (some p) = p.txt

  me_of-txt : (o : Option Peer) → (me_of o).txt ≡ txt_of o
  unfolding new_peer
  me_of-txt none = refl
  me_of-txt (some p) = refl

  set_first :
      (key : Str) (value : Option Str)
      → update_peers now (set_txt key value) d ≡ with_txt (BtreeMap.insert key value (my_txt d))
  unfolding update_peers update_me
  set_first key value =
      ap
        (λ t. record d {
          peers =
              BtreeMap.insert d.peer_id
                (record (me_of (BtreeMap.get d.peer_id d.peers)) {
                  txt = BtreeMap.insert key value t;
                })
                d.peers;
        })
        (me_of-txt (BtreeMap.get d.peer_id d.peers))

  set_next :
      (key : Str) (value : Option Str) (t : BtreeMap Str (Option Str))
      → update_peers now (set_txt key value) (with_txt t) ≡ with_txt (BtreeMap.insert key value t)
  unfolding update_peers update_me
  set_next key value t =
      let me : Peer = me_of (BtreeMap.get d.peer_id d.peers) in
      let put : Peer → BtreeMap Str Peer = λ p. BtreeMap.insert d.peer_id p d.peers in
      ap
        (λ o. record d {
          peers =
              BtreeMap.insert d.peer_id
                (record (me_of o) { txt = BtreeMap.insert key value (me_of o).txt })
                (put (record me { txt = t }));
        })
        (get_inserted d.peer_id (record me { txt = t }) d.peers)
      ∙ ap (λ m. record d { peers = m })
          (insert_twice d.peer_id (record me { txt = t })
            (record me { txt = BtreeMap.insert key value t }) d.peers)

  set_rest :
      (attributes : List (Str × Option Str)) (t t' : BtreeMap Str (Option Str))
      → insert_attributes attributes t ≡ ok t'
      → set_each now attributes (with_txt t) ≡ with_txt t'
  unfolding insert_attributes
  set_rest [] t t' h = let same : t ≡ t' = ground arith in ap with_txt same
  set_rest ((key, value) ∷ rest) t t' h =
      ap (set_each now rest) (set_next key value t)
      ∙ set_rest rest (BtreeMap.insert key value t) t' (inserted-cons key value rest t t' h)

-- Attributes, at least one, that the builder accepts lead to the same node as updates of the running
-- node that set them one by one.
pub set_each-with_txt_attributes :
    (now : Instant) (key : Str) (value : Option Str) (rest : List (Str × Option Str))
    (d d' : Discoverer)
    → with_txt_attributes now ((key, value) ∷ rest) d ≡ ok d'
    → set_each now ((key, value) ∷ rest) d ≡ d'
unfolding with_txt_attributes
set_each-with_txt_attributes now key value rest d d' h =
    taken (insert_attributes ((key, value) ∷ rest) (my_txt d)) refl h
  where
    taken :
        (r : TxtResult (BtreeMap Str (Option Str)))
        → insert_attributes ((key, value) ∷ rest) (my_txt d) ≡ r
        → elim r as (λ _. TxtResult Discoverer) [ err x ↦ err x | ok t ↦ ok (with_txt now d t) ]
          ≡ ok d'
        → set_each now ((key, value) ∷ rest) d ≡ d'
    taken (ok t) q e =
        ap (set_each now rest) (set_first now d key value)
        ∙ set_rest now d rest (BtreeMap.insert key value (my_txt d)) t
            (inserted-cons key value rest (my_txt d) t q)
        ∙ (ground arith)
    taken (err x) q e = cc
