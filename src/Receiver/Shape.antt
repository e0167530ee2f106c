-- ===== src/Receiver/Shape.antt =====
-- Every response that the receiver hands on is well formed, whatever packet came in.
use swarm_discovery.Prelude.{
  ℕ, ◌≡◌, refl, subst, false, List, [], ◌∷◌, ◌++◌, Option, none, some, arith, Option-cases,
  Bool-cases, inl, inr, length, if_both, ◌==◌, not,
}
use swarm_discovery.Std.BtreeMap
use swarm_discovery.Std.BtreeMap.{BtreeMap, IsOrdered}
use swarm_discovery.Std.BtreeMap.Laws.{
  AllValues, AllValues-insert, AllValues-remove, AllValues-get, AllValues-entry, insert-IsOrdered,
}
use swarm_discovery.Std.Net.{IpAddr, v4, v6, Endpoint, ip_ord}
use swarm_discovery.Std.Ord.{list_ord, nat_ord, pair_ord}
use swarm_discovery.Std.Outcome.{Outcome, ok, ◌>>=◌, expect}
use swarm_discovery.Std.Sort.{IsAscending, sort_unstable, dedup}
use swarm_discovery.Std.Sort.Laws.{dedup-sort_unstable-IsAscending, is_empty-dedup-sort_unstable}
use swarm_discovery.Std.Text.{Str, codes, is_empty, from_utf8}
use swarm_discovery.Std.Time.{Instant}
use swarm_discovery.Dns.{
  NameApi, Codec, Message, DnsRecord, RecordData, srv, txt, a, aaaa, other_data, same_name,
}
use swarm_discovery.Messages.{MdnsMsg, query_v4, query_v6, response, timeout, size_update, update}
use swarm_discovery.Peer.{Peer, TxtData, is_expiry}
use swarm_discovery.Receiver.{
  Services, put_new, key_value, read_string, read_strings, read_data, read_answer, read_answers,
  push_addrs, ip_of, read_additional, read_additionals, build_peers, read_response, handle_msg,
  unwrap_or_empty, is_internet, label_text, query_from, asks_for,
}

abbrev IsNonempty : List Endpoint → Type 0
IsNonempty l = is_empty l ≡ false

push-IsNonempty : (l : List Endpoint) (e : Endpoint) → IsNonempty (l ++ e ∷ [])
push-IsNonempty [] e = refl
push-IsNonempty (x ∷ l) e = refl

-- The attributes of each peer are ordered by their keys.
put_new-IsOrdered : (e : Str × Option Str) (t : TxtData) → IsOrdered t → IsOrdered (put_new e t)
unfolding put_new
put_new-IsOrdered (k, v) t o = ground (arith, insert-IsOrdered k v t o)

abbrev AreAttributes : BtreeMap Str TxtData → Type 0
AreAttributes m = AllValues (λ (t : TxtData). IsOrdered t) m

read_string-AreAttributes :
    (peer_id : Str) (s : List ℕ) (m : BtreeMap Str TxtData)
    → AreAttributes m
    → AreAttributes (read_string peer_id s m)
unfolding read_string
read_string-AreAttributes peer_id s m h = elim (Option-cases (from_utf8 s)) [
  | inl e ↦ rw (e, read_string) h
  | inr (t, e) ↦
      rw (e, read_string)
        (elim (Bool-cases (is_empty t)) [
          | inl nothing ↦ rw nothing h
          | inr something ↦ rw something (
              AllValues-entry (λ (a : TxtData). IsOrdered a) peer_id [] (put_new (key_value t)) m tt
                (put_new-IsOrdered (key_value t)) h)
        ])
]

read_strings-AreAttributes :
    (peer_id : Str) (strings : List (List ℕ)) (m : BtreeMap Str TxtData)
    → AreAttributes m
    → AreAttributes (read_strings peer_id strings m)
unfolding read_strings
read_strings-AreAttributes peer_id [] m h = h
read_strings-AreAttributes peer_id (s ∷ rest) m h =
    read_strings-AreAttributes peer_id rest (read_string peer_id s m)
      (read_string-AreAttributes peer_id s m h)

-- Every peer in the map of addresses has one.
push_addrs-IsNonempty :
    (ip : IpAddr) (ports : List (ℕ × Str)) (m : BtreeMap Str (List Endpoint))
    → AllValues IsNonempty m
    → AllValues IsNonempty (push_addrs ip ports m)
unfolding push_addrs
push_addrs-IsNonempty ip [] m h = h
push_addrs-IsNonempty ip ((port, peer_id) ∷ rest) m h =
    push_addrs-IsNonempty ip rest _
      (AllValues-insert IsNonempty peer_id _ m (push-IsNonempty _ (ip, port)) h)

-- A peer as the receiver hands it on at the time `now`.
pub record IsObserved (now : Instant) (p : Peer) : Type 0 where
  pub found : is_expiry p ≡ false
  pub ascending : IsAscending p.addrs
  pub seen_now : p.last_seen ≡ now
  pub attributes_ordered : IsOrdered p.txt

is_expiry-is_empty : (p : Peer) → is_empty p.addrs ≡ false → is_expiry p ≡ false
unfolding is_expiry
is_expiry-is_empty p h = go p.addrs h
  where
    go : (l : List Endpoint) → is_empty l ≡ false → (length l == 0) ≡ false
    go [] e = cc
    go (x ∷ l) e = ground arith

nonempty_sorted : (l : List Endpoint) → IsNonempty l → is_empty (dedup (sort_unstable l)) ≡ false
nonempty_sorted [] h = cc
nonempty_sorted (e ∷ l) h = is_empty-dedup-sort_unstable e l

unwrap-IsOrdered :
    (id : Str) (m : BtreeMap Str TxtData)
    → AreAttributes m
    → IsOrdered (unwrap_or_empty (BtreeMap.get id m))
unwrap-IsOrdered id m h = AllValues-get (λ (t : TxtData). IsOrdered t) id [] m tt h

build_peers-IsObserved :
    (now : Instant) (addrs : BtreeMap Str (List Endpoint)) (texts : BtreeMap Str TxtData)
    (ret : BtreeMap Str Peer)
    → AllValues IsNonempty addrs
    → AreAttributes texts
    → IsOrdered ret × AllValues (IsObserved now) ret
    → IsOrdered (build_peers now addrs texts ret)
      × AllValues (IsObserved now) (build_peers now addrs texts ret)
unfolding build_peers
build_peers-IsObserved now [] texts ret full t h = h
build_peers-IsObserved now ((peer_id, l) ∷ rest) texts ret full t h =
    build_peers-IsObserved now rest (BtreeMap.remove peer_id texts) _ full.1
      (AllValues-remove _ peer_id texts t)
      (
        insert-IsOrdered peer_id _ ret h.0,
        AllValues-insert (IsObserved now) peer_id _ ret
            (record {
              found = is_expiry-is_empty _ (nonempty_sorted l full.0);
              ascending = dedup-sort_unstable-IsAscending l;
              seen_now = refl;
              attributes_ordered = unwrap-IsOrdered peer_id texts t;
            })
            h.1,
      )

-- What a receiver may tell the sender.
abbrev pub IsHeard : MdnsMsg → Type 0
IsHeard query_v4 = Unit
IsHeard query_v6 = Unit
IsHeard (response m) = Unit
IsHeard _ = ⊥

module _ {Name : Type 0} (n : NameApi Name) where
  read_data-AreAttributes :
      (peer_id : Str) (d : RecordData Name) (s : Services n)
      → AreAttributes s.1
      → AreAttributes (read_data n peer_id d s).1
  unfolding read_data
  read_data-AreAttributes peer_id (srv priority weight port target) s h = h
  read_data-AreAttributes peer_id (txt strings) s h =
      read_strings-AreAttributes peer_id strings s.1 h
  read_data-AreAttributes peer_id (a addr) s h = h
  read_data-AreAttributes peer_id (aaaa addr) s h = h
  read_data-AreAttributes peer_id other_data s h = h

  read_answer-AreAttributes :
      (service_name : Name) (r : DnsRecord Name) (s : Services n)
      → AreAttributes s.1
      → AreAttributes (read_answer n service_name r s).1
  unfolding read_answer
  read_answer-AreAttributes service_name r s h = if_both kept (not (is_internet r.dns_class)) h (
      if_both kept (not (same_name n (n.base_name r.name) service_name)) h
        (named (label_text (n.first_label r.name))))
    where
      kept : Services n → Type 0
      kept s' = AreAttributes s'.1

      named :
          (label : Option Str)
          → kept (elim label [ none ↦ s | some peer_id ↦ read_data n peer_id r.rdata s ])
      named none = h
      named (some peer_id) = read_data-AreAttributes peer_id r.rdata s h

  read_answers-AreAttributes :
      (service_name : Name) (rs : List (DnsRecord Name)) (s : Services n)
      → AreAttributes s.1
      → AreAttributes (read_answers n service_name rs s).1
  unfolding read_answers
  read_answers-AreAttributes service_name [] s h = h
  read_answers-AreAttributes service_name (r ∷ rs) s h =
      read_answers-AreAttributes service_name rs (read_answer n service_name r s)
        (read_answer-AreAttributes service_name r s h)

  read_additional-IsNonempty :
      (local : Name) (ports : BtreeMap Name (List (ℕ × Str))) (r : DnsRecord Name)
      (m : BtreeMap Str (List Endpoint))
      → AllValues IsNonempty m
      → AllValues IsNonempty (read_additional n local ports r m)
  unfolding read_additional
  read_additional-IsNonempty local ports r m h =
      if_both kept (not (is_internet r.dns_class)) h
        (if_both kept (not (same_name n (n.base_name r.name) local)) h (addressed (ip_of r.rdata)))
    where
      kept : BtreeMap Str (List Endpoint) → Type 0
      kept m' = AllValues IsNonempty m'

      ports_of : List (ℕ × Str)
      ports_of = unwrap_or_empty (BtreeMap.get ⦃o = n.order⦄ r.name ports)

      addressed :
          (ip : Option IpAddr) → kept (elim ip [ none ↦ m | some ip ↦ push_addrs ip ports_of m ])
      addressed none = h
      addressed (some ip) = push_addrs-IsNonempty ip ports_of m h

  read_additionals-IsNonempty :
      (local : Name) (ports : BtreeMap Name (List (ℕ × Str))) (rs : List (DnsRecord Name))
      (m : BtreeMap Str (List Endpoint))
      → AllValues IsNonempty m
      → AllValues IsNonempty (read_additionals n local ports rs m)
  unfolding read_additionals
  read_additionals-IsNonempty local ports [] m h = h
  read_additionals-IsNonempty local ports (r ∷ rs) m h =
      read_additionals-IsNonempty local ports rs (read_additional n local ports r m)
        (read_additional-IsNonempty local ports r m h)

  pub read_response-IsObserved :
      (service_name local : Name) (now : Instant) (packet : Message Name)
      → let m = read_response n service_name local now packet in
        IsOrdered m × AllValues (IsObserved now) m
  unfolding read_response
  read_response-IsObserved service_name local now packet =
      build_peers-IsObserved now _ _ []
        (read_additionals-IsNonempty local _ packet.additionals [] tt)
        (read_answers-AreAttributes service_name packet.answers (BtreeMap.empty, BtreeMap.empty) tt)
        (tt, tt)

  abbrev Handed : Instant → Outcome (Option MdnsMsg) → Type 0
  Handed now (ok (some (response m))) = IsOrdered m × AllValues (IsObserved now) m
  Handed now (ok (some msg)) = IsHeard msg
  Handed now _ = Unit

  handle_msg-Handed :
      (codec : Codec Name) (now : Instant) (bytes : List ℕ) (service_name : Name) (from : IpAddr)
      → Handed now (handle_msg n codec now bytes service_name from)
  unfolding handle_msg
  handle_msg-Handed codec now bytes service_name from = elim (Option-cases (codec.from_vec bytes)) [
    | inl e ↦ rw (e, handle_msg) tt
    | inr (packet, e) ↦
        rw (e, handle_msg)
          (if_both (Handed now) (asks_for n service_name packet.queries) (asked from)
            (answered packet (n.from_str (codes "local."))))
  ]
    where
      asked : (ip : IpAddr) → Handed now (ok (some (query_from ip)))
      asked (v4 _) = tt
      asked (v6 _) = tt

      answered :
          (packet : Message Name) (local : Option Name)
          → Handed now (
              expect local >>= λ l.
              ok (some (response (read_response n service_name l now packet))))
      answered packet none = tt
      answered packet (some l) = read_response-IsObserved service_name l now packet

  -- Whatever packet comes in, a response that the receiver hands on is ordered by the identifiers of
  -- its peers, and each of them has an address, its addresses in strict order and its attributes
  -- ordered by their keys, and was seen at the time of the packet.
  pub handle_msg-IsObserved :
      (codec : Codec Name) (now : Instant) (bytes : List ℕ) (service_name : Name) (from : IpAddr)
      (m : BtreeMap Str Peer)
      → handle_msg n codec now bytes service_name from ≡ ok (some (response m))
      → IsOrdered m × AllValues (IsObserved now) m
  handle_msg-IsObserved codec now bytes service_name from m h =
      subst (Handed now) h (handle_msg-Handed codec now bytes service_name from)

  pub handle_msg-IsHeard :
      (codec : Codec Name) (now : Instant) (bytes : List ℕ) (service_name : Name) (from : IpAddr)
      (msg : MdnsMsg)
      → handle_msg n codec now bytes service_name from ≡ ok (some msg)
      → IsHeard msg
  handle_msg-IsHeard codec now bytes service_name from query_v4 h = tt
  handle_msg-IsHeard codec now bytes service_name from query_v6 h = tt
  handle_msg-IsHeard codec now bytes service_name from (response m) h = tt
  handle_msg-IsHeard codec now bytes service_name from (timeout c) h =
      subst (Handed now) h (handle_msg-Handed codec now bytes service_name from)
  handle_msg-IsHeard codec now bytes service_name from (size_update k) h =
      subst (Handed now) h (handle_msg-Handed codec now bytes service_name from)
  handle_msg-IsHeard codec now bytes service_name from (update i) h =
      subst (Handed now) h (handle_msg-Handed codec now bytes service_name from)
