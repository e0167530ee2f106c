-- ===== src/Receiver.antt =====
-- src/receiver.rs: `handle_msg`, which turns a packet into a message for the sender.
pub mod Shape
pub mod Questions
pub mod Loop
use swarm_discovery.Prelude.{
  ℕ, Bool, true, false, not, List, [], ◌∷◌, ◌++◌, Option, none, some, if◌then◌else◌,
}
use swarm_discovery.Std.BtreeMap
use swarm_discovery.Std.BtreeMap.{BtreeMap}
use swarm_discovery.Std.Net.{IpAddr, Endpoint, ip_ord}
use swarm_discovery.Std.Net
use swarm_discovery.Std.Ord.{pair_ord, Ord, list_ord, nat_ord}
use swarm_discovery.Std.Outcome.{Outcome, ok, ◌>>=◌, expect}
use swarm_discovery.Std.Sort.{sort_unstable, dedup}
use swarm_discovery.Std.Text.{Str, codes, split_once, is_empty, from_utf8}
use swarm_discovery.Std.Time.{Instant}
use swarm_discovery.Dns.{
  NameApi, Codec, Message, Query, DnsRecord, RecordData, srv, txt, a, aaaa, DnsClass, internet,
  other_class, RecordType, ptr, other_type, same_name,
}
use swarm_discovery.Messages.{MdnsMsg, query_v4, query_v6, response}
use swarm_discovery.Peer.{Peer, TxtData}

abbrev pub is_internet : DnsClass → Bool
is_internet internet = true
is_internet other_class = false

abbrev pub is_ptr : RecordType → Bool
is_ptr ptr = true
is_ptr other_type = false

abbrev query_from : IpAddr → MdnsMsg
query_from (Net.v4 _) = query_v4
query_from (Net.v6 _) = query_v6

-- `split_once('=')`, where a string with no `=` is a flag.
unfoldable pub key_value : Str → Str × Option Str
key_value s = elim (split_once b'=' s) [ some (key, value) ↦ (key, some value) | none ↦ (s, none) ]

-- The first value of a key stays.
unfoldable pub put_new : Str × Option Str → TxtData → TxtData
put_new (key, value) attributes =
    if BtreeMap.contains_key key attributes
    then attributes
    else BtreeMap.insert key value attributes

-- One string of a TXT record.
unfoldable pub read_string : Str → List ℕ → BtreeMap Str TxtData → BtreeMap Str TxtData
unfolding key_value put_new
read_string peer_id bytes peer_txt = elim (from_utf8 bytes) [
  | none ↦ peer_txt
  | some s ↦
      if is_empty s
      then peer_txt
      else BtreeMap.entry_or_insert peer_id BtreeMap.empty (put_new (key_value s)) peer_txt
]

unfoldable pub read_strings : Str → List (List ℕ) → BtreeMap Str TxtData → BtreeMap Str TxtData
unfolding read_string
read_strings peer_id [] peer_txt = peer_txt
read_strings peer_id (s ∷ rest) peer_txt =
    read_strings peer_id rest (read_string peer_id s peer_txt)

-- The peer that the first label names, if it is UTF-8.
abbrev pub label_text : Option (List ℕ) → Option Str
label_text none = none
label_text (some bytes) = from_utf8 bytes

abbrev pub ip_of : {Name : Type 0} → RecordData Name → Option IpAddr
ip_of (a addr) = some (Net.v4 addr)
ip_of (aaaa addr) = some (Net.v6 addr)
ip_of _ = none

abbrev pub unwrap_or_empty : {A : Type 0} → Option (List A) → List A
unwrap_or_empty none = []
unwrap_or_empty (some l) = l

-- `for (port, peer_id) in ports { peer_addrs.entry(peer_id).or_default().push((ip, port)) }`
unfoldable pub push_addrs :
    IpAddr → List (ℕ × Str) → BtreeMap Str (List Endpoint) → BtreeMap Str (List Endpoint)
push_addrs ip [] peer_addrs = peer_addrs
push_addrs ip ((port, peer_id) ∷ rest) peer_addrs =
    push_addrs ip rest (BtreeMap.entry_or_insert peer_id [] (λ l. l ++ (ip, port) ∷ []) peer_addrs)

-- The last loop: a peer for each identifier with addresses. The clock is read once for each peer;
-- here these readings are one, `now`, the time of the packet.
unfoldable pub build_peers :
    Instant
    → BtreeMap Str (List Endpoint)
    → BtreeMap Str TxtData
    → BtreeMap Str Peer
    → BtreeMap Str Peer
build_peers now [] peer_txt ret = ret
build_peers now ((peer_id, addrs) ∷ rest) peer_txt ret =
    let peer : Peer = record {
      addrs = dedup (sort_unstable addrs);
      last_seen = now;
      txt = unwrap_or_empty (BtreeMap.get peer_id peer_txt);
    } in
    build_peers now rest (BtreeMap.remove peer_id peer_txt) (BtreeMap.insert peer_id peer ret)

module _ {Name : Type 0} (n : NameApi Name) where
  instance abbrev pub name_ord : Ord Name
  name_ord = n.order

  -- `peer_ports` and `peer_txt`
  abbrev pub Services : Type 0
  Services = BtreeMap Name (List (ℕ × Str)) × BtreeMap Str TxtData

  -- The loop over the questions: whether one of them asks for the service.
  unfoldable pub asks_for : Name → List (Query Name) → Bool
  asks_for service_name [] = false
  asks_for service_name (question ∷ rest) =
      let continue = asks_for service_name rest in
      if not (is_internet question.query_class)
      then continue
      else if not (is_ptr question.query_type)
      then continue
      else if not (same_name n question.query_name service_name)
      then continue
      else true

  unfoldable pub read_data : Str → RecordData Name → Services → Services
  unfolding read_strings
  read_data peer_id (srv priority weight port target) (peer_ports, peer_txt) =
      (BtreeMap.entry_or_insert target [] (λ l. l ++ (port, peer_id) ∷ []) peer_ports, peer_txt)
  read_data peer_id (txt strings) (peer_ports, peer_txt) =
      (peer_ports, read_strings peer_id strings peer_txt)
  read_data peer_id _ services = services

  unfoldable pub read_answer : Name → DnsRecord Name → Services → Services
  unfolding read_data
  read_answer service_name r services =
      if not (is_internet r.dns_class)
      then services
      else if not (same_name n (n.base_name r.name) service_name)
      then services
      else elim (label_text (n.first_label r.name)) [
        | none ↦ services
        | some peer_id ↦ read_data peer_id r.rdata services
      ]

  unfoldable pub read_answers : Name → List (DnsRecord Name) → Services → Services
  unfolding read_answer
  read_answers service_name [] services = services
  read_answers service_name (r ∷ rest) services =
      read_answers service_name rest (read_answer service_name r services)

  unfoldable pub read_additional :
      Name
      → BtreeMap Name (List (ℕ × Str))
      → DnsRecord Name
      → BtreeMap Str (List Endpoint)
      → BtreeMap Str (List Endpoint)
  unfolding push_addrs
  read_additional local peer_ports r peer_addrs =
      if not (is_internet r.dns_class)
      then peer_addrs
      else if not (same_name n (n.base_name r.name) local)
      then peer_addrs
      else elim (ip_of r.rdata) [
        | none ↦ peer_addrs
        | some ip ↦ push_addrs ip (unwrap_or_empty (BtreeMap.get r.name peer_ports)) peer_addrs
      ]

  unfoldable pub read_additionals :
      Name
      → BtreeMap Name (List (ℕ × Str))
      → List (DnsRecord Name)
      → BtreeMap Str (List Endpoint)
      → BtreeMap Str (List Endpoint)
  unfolding read_additional
  read_additionals local peer_ports [] peer_addrs = peer_addrs
  read_additionals local peer_ports (r ∷ rest) peer_addrs =
      read_additionals local peer_ports rest (read_additional local peer_ports r peer_addrs)

  -- What follows the loop over the questions.
  unfoldable pub read_response : Name → Name → Instant → Message Name → BtreeMap Str Peer
  unfolding read_answers read_additionals build_peers
  read_response service_name local now packet =
      let services = read_answers service_name packet.answers (BtreeMap.empty, BtreeMap.empty) in
      let peer_addrs = read_additionals local services.0 packet.additionals BtreeMap.empty in
      build_peers now peer_addrs services.1 BtreeMap.empty

  -- `none` is a packet that does not parse; `Name::from_str("local.")` is unwrapped.
  unfoldable pub handle_msg :
      Codec Name → Instant → List ℕ → Name → IpAddr → Outcome (Option MdnsMsg)
  unfolding asks_for read_response
  handle_msg codec now buf service_name addr = elim (codec.from_vec buf) [
    | none ↦ ok none
    | some packet ↦ if asks_for service_name packet.queries then ok (some (query_from addr)) else do
      local ← expect (n.from_str (codes "local."))
      ok (some (response (read_response service_name local now packet)))
  ]
