-- ===== src/Wire/Contents.antt =====
-- What stands in the response that make_response of src/sender.rs makes, record by record, said
-- without its grouping by ports.
use swarm_discovery.Prelude.{
  ℕ, ◌+◌, ◌<◌, ◌≡◌, refl, sym, ap, ◌∙◌, lt, suc, Bool, All-imp, false, not, ◌||◌, List, [], ◌∷◌,
  ◌++◌, none, some, All, length, length-append, map, arith, if◌then◌else◌, ◌==◌, Option,
}
use swarm_discovery.Std.BtreeMap
use swarm_discovery.Std.BtreeMap.{BtreeMap, keys, IsOrdered}
use swarm_discovery.Std.BtreeMap.Laws.{insert-IsOrdered, get-Below}
use swarm_discovery.Std.Net.{IpAddr, v4, v6, Endpoint, ip_ord}
use swarm_discovery.Std.Ord.{list_ord, nat_ord, pair_ord}
use swarm_discovery.Std.Outcome.{ok}
use swarm_discovery.Std.Sort.{contains, IsAscending, retain}
use swarm_discovery.Std.Text.{Str, is_empty}
use swarm_discovery.Discoverer.{Discoverer}
use swarm_discovery.Dns.{NameApi, Message, DnsRecord, RecordData, from_rdata, srv, txt, a, aaaa}
use swarm_discovery.Dns
use swarm_discovery.Peer.{Peer, TxtData}
use swarm_discovery.Sender.Response.{make_response, group_by_port, txt_parts, address_data}
use swarm_discovery.Wire.Addresses.{
  endpoints, with_port, contains-group_by_port, group_by_port-IsOrdered,
}
use swarm_discovery.Wire.Names.{ServiceNames}
use swarm_discovery.Wire.RoundTrip.{groups, announcement, txt_answers, make_response-announcement}
use swarm_discovery.Wire.Services.{Groups, srv_answers, address_records, group_additionals}

-- The port is that of one of the addresses.
abbrev pub has_port : ℕ → List Endpoint → Bool
has_port port [] = false
has_port port ((ip, p) ∷ es) = (port == p) || has_port port es

abbrev pub data_of : {Name : Type 0} → IpAddr → RecordData Name
data_of (v4 addr) = a addr
data_of (v6 addr) = aaaa addr

-- `key=value`, or the key alone.
abbrev pub written : Str × Option Str → Str
written (key, none) = key
written (key, some value) = key ++ b'=' ∷ value

abbrev pub written_all : TxtData → List Str
written_all attributes = map written (retain (λ e. not (is_empty e.0)) attributes)

txt_parts_lem : (attributes : TxtData) → txt_parts attributes ≡ written_all attributes
unfolding txt_parts retain
txt_parts_lem [] = refl
txt_parts_lem ((key, none) ∷ rest) = ground (arith, txt_parts_lem rest)
txt_parts_lem ((key, some value) ∷ rest) = ground (arith, txt_parts_lem rest)

has_port-push_ip :
    (port p : ℕ) (ips : List IpAddr) (g : Groups)
    → contains port (keys (BtreeMap.insert p ips g)) ≡ ((port == p) || contains port (keys g))
unfolding contains BtreeMap.insert nat_ord
has_port-push_ip port p ips [] = ground arith
has_port-push_ip port p ips ((q, w) ∷ g) = ground (arith, has_port-push_ip port p ips g)

abbrev push_ip : ℕ → IpAddr → Groups → Groups
push_ip port ip g = BtreeMap.entry_or_insert port [] (λ l. l ++ ip ∷ []) g

has_port-group_by_port :
    (port : ℕ) (es : List Endpoint) (g : Groups)
    → contains port (keys (group_by_port es g)) ≡ (contains port (keys g) || has_port port es)
unfolding group_by_port
has_port-group_by_port port [] g = ground arith
has_port-group_by_port port ((ip, p) ∷ es) g =
    has_port-group_by_port port es (push_ip p ip g) ∙ ground (arith, added)
  where
    added : contains port (keys (push_ip p ip g)) ≡ ((port == p) || contains port (keys g))
    added = has_port-push_ip port p _ g

length-with_port : (port : ℕ) (ips : List IpAddr) → length (with_port port ips) ≡ length ips
unfolding with_port
length-with_port port [] = refl
length-with_port port (ip ∷ ips) = ap suc (length-with_port port ips)

length-push_ip :
    (port : ℕ) (ip : IpAddr) (g : Groups)
    → IsOrdered g
    → length (endpoints (push_ip port ip g)) ≡ suc (length (endpoints g))
unfolding endpoints nat_ord BtreeMap.get BtreeMap.insert with_port
length-push_ip port ip [] o = refl
length-push_ip port ip ((p, ips) ∷ g) o = ground (
  arith,
  length-append (with_port p ips) (endpoints g),
  length-append (with_port p (ips ++ ip ∷ [])) (endpoints g),
  length-append (with_port p ips) (endpoints (push_ip port ip g)),
  length-with_port p ips,
  length-with_port p (ips ++ ip ∷ []),
  length-append ips (ip ∷ []),
  length-push_ip port ip g o.1,
  λ (e : nat_ord.cmp port p ≡ lt).
      get-Below port g (All-imp (λ y. nat_ord.lt_trans port p y e) (keys g) o.0),
)

length-group_by_port :
    (es : List Endpoint) (g : Groups)
    → IsOrdered g
    → length (endpoints (group_by_port es g)) ≡ length es + length (endpoints g)
unfolding group_by_port
length-group_by_port [] g o = omega arith
length-group_by_port ((ip, port) ∷ es) g o = omega (
  arith,
  length-group_by_port es (push_ip port ip g) (insert-IsOrdered port _ g o),
  length-push_ip port ip g o,
)

module _ {Name : Type 0} (n : NameApi Name) (peer_id : Str) (service_name : Name)
    (names : ServiceNames n peer_id service_name) where
  open names use {own, target}

  -- An SRV record for a port, an address record for an address with its port, and the TXT record.
  abbrev pub service_of : ℕ → DnsRecord Name
  service_of port = from_rdata own 0 (srv 0 0 port (target port))

  abbrev pub address_of : Endpoint → DnsRecord Name
  address_of (ip, port) = from_rdata (target port) 0 (data_of ip)

  abbrev pub text_of : TxtData → List (DnsRecord Name)
  text_of [] = []
  text_of (e ∷ rest) = from_rdata own 0 (txt (written_all (e ∷ rest))) ∷ []

  -- The message answers with the ports and the attributes, and adds the addresses; each port and each
  -- address of the peer stands in it once.
  pub record Says (p : Peer) (msg : Message Name) : Type 0 where
    pub ports : List ℕ
    pub once : IsAscending ports
    pub every_port : (port : ℕ) → contains port ports ≡ has_port port p.addrs
    pub answers : msg.answers ≡ map service_of ports ++ text_of p.txt
    pub addresses : List Endpoint
    pub as_many : length addresses ≡ length p.addrs
    pub every_address : (e : Endpoint) → contains e addresses ≡ contains e p.addrs
    pub additionals : msg.additionals ≡ map address_of addresses
    pub asks_nothing : msg.queries ≡ []
    pub responds : msg.message_type ≡ Dns.response

  srv_answers_lem :
      (g : Groups) → srv_answers n peer_id service_name names g ≡ map service_of (keys g)
  unfolding srv_answers
  srv_answers_lem [] = refl
  srv_answers_lem ((port, ips) ∷ g) = ap (◌∷◌ (service_of port)) (srv_answers_lem g)

  data_of_lem : (ip : IpAddr) → address_data {Name = Name} ip ≡ data_of ip
  data_of_lem (v4 addr) = refl
  data_of_lem (v6 addr) = refl

  address_records_lem :
      (port : ℕ) (ips : List IpAddr)
      → address_records n peer_id service_name names port ips ≡ map address_of (with_port port ips)
  unfolding address_records with_port
  address_records_lem port [] = refl
  address_records_lem port (ip ∷ ips) = cc (data_of_lem ip, address_records_lem port ips)

  map_append :
      (xs ys : List Endpoint) → map address_of (xs ++ ys) ≡ map address_of xs ++ map address_of ys
  map_append [] ys = refl
  map_append (x ∷ xs) ys = ap (◌∷◌ (address_of x)) (map_append xs ys)

  group_additionals_lem :
      (g : Groups) → group_additionals n peer_id service_name names g ≡ map address_of (endpoints g)
  unfolding group_additionals endpoints
  group_additionals_lem [] = refl
  group_additionals_lem ((port, ips) ∷ g) =
      rw (address_records_lem port ips, group_additionals_lem g)
        (sym (map_append (with_port port ips) (endpoints g)))

  text_of_lem :
      (attributes : TxtData)
      → (if is_empty attributes then [] else from_rdata own 0 (txt (txt_parts attributes)) ∷ [])
        ≡ text_of attributes
  text_of_lem [] = refl
  text_of_lem (e ∷ rest) =
      ap (λ parts. from_rdata own 0 (txt parts) ∷ []) (txt_parts_lem (e ∷ rest))

  -- Where the names of the service parse as `ServiceNames` says, and the ports of the node's peer are
  -- 16-bit numbers, `make_response` does not panic, and its message answers with an SRV record for each
  -- port of an address of the peer, once, in the order of the ports, and then, unless there are no
  -- attributes, with a TXT record that holds `key=value`, or the key alone, for each attribute whose
  -- key is not empty. It adds as many address records as the peer has addresses, one for each of them,
  -- under the name of its port.
  pub make_response-Says :
      (d : Discoverer) (p : Peer)
      → d.peer_id ≡ peer_id
      → BtreeMap.get d.peer_id d.peers ≡ some p
      → All (λ (e : Endpoint). e.1 < 65536) p.addrs
      → (msg : Message Name) × (make_response n d service_name ≡ ok (some msg)) × Says p msg
  unfolding announcement txt_answers contains endpoints
  make_response-Says d p same e b = (
    announcement n peer_id service_name names p,
    make_response-announcement n peer_id service_name names d p same e b,
    record {
      ports = keys (groups p);
      once = group_by_port-IsOrdered p.addrs BtreeMap.empty tt;
      every_port = λ port. has_port-group_by_port port p.addrs BtreeMap.empty;
      answers = cc (srv_answers_lem (groups p), text_of_lem p.txt);
      addresses = endpoints (groups p);
      as_many = omega (arith, length-group_by_port p.addrs BtreeMap.empty tt);
      every_address = λ z. contains-group_by_port z p.addrs BtreeMap.empty tt;
      additionals = group_additionals_lem (groups p);
      asks_nothing = refl;
      responds = refl;
    },
  )
