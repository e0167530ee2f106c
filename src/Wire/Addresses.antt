-- ===== src/Wire/Addresses.antt =====
-- The address records: `read_additionals` finds every address under the port of its group, and
-- grouping loses no address and makes none up.
use swarm_discovery.Prelude.{
  ℕ, ◌<◌, ◌≡◌, refl, sym, ap, ◌∙◌, lt, true, ◌||◌, List, [], ◌∷◌, ◌++◌, some, arith, All, All-imp,
  append_assoc, append-nil,
}
use swarm_discovery.Std.BtreeMap
use swarm_discovery.Std.BtreeMap.{BtreeMap, keys, IsOrdered}
use swarm_discovery.Std.BtreeMap.Laws.{insert-IsOrdered, get-Below, get_one, insert_one}
use swarm_discovery.Std.Net.{IpAddr, v4, v6, Endpoint, endpoint_cmp, ip_ord}
use swarm_discovery.Std.Ord.{list_ord, nat_ord, pair_ord, is_eq}
use swarm_discovery.Std.Sort.{contains}
use swarm_discovery.Std.Sort.Laws.{contains-append}
use swarm_discovery.Std.Text.{Str}
use swarm_discovery.Dns.{NameApi, DnsRecord, from_rdata}
use swarm_discovery.Receiver.{read_additionals, read_additional, push_addrs, ip_of}
use swarm_discovery.Sender.Response.{group_by_port, address_data}
use swarm_discovery.Wire.Names.{ServiceNames}
use swarm_discovery.Wire.Services.{Groups, ArePorts, address_records, group_additionals}

-- The addresses of one port.
unfoldable pub with_port : ℕ → List IpAddr → List Endpoint
with_port port [] = []
with_port port (ip ∷ ips) = (ip, port) ∷ with_port port ips

unfoldable pub endpoints : Groups → List Endpoint
endpoints [] = []
endpoints ((port, ips) ∷ g) = with_port port ips ++ endpoints g

unfoldable pub push_all :
    Str → List Endpoint → BtreeMap Str (List Endpoint) → BtreeMap Str (List Endpoint)
push_all peer_id [] m = m
push_all peer_id (e ∷ es) m =
    push_all peer_id es (BtreeMap.entry_or_insert peer_id [] (λ l. l ++ e ∷ []) m)

push_all-append :
    (peer_id : Str) (xs ys : List Endpoint) (m : BtreeMap Str (List Endpoint))
    → push_all peer_id (xs ++ ys) m ≡ push_all peer_id ys (push_all peer_id xs m)
unfolding push_all
push_all-append peer_id [] ys m = refl
push_all-append peer_id (e ∷ xs) ys m = push_all-append peer_id xs ys _

push_all_one :
    (peer_id : Str) (acc es : List Endpoint)
    → push_all peer_id es ((peer_id, acc) ∷ []) ≡ (peer_id, acc ++ es) ∷ []
unfolding push_all
push_all_one peer_id acc [] = rw (append-nil acc)
push_all_one peer_id acc (e ∷ es) =
    simp (get_one, insert_one)
      (push_all_one peer_id (acc ++ e ∷ []) es
        ∙ ap (λ l. (peer_id, l) ∷ []) (append_assoc acc (e ∷ []) es))

-- The first address makes the entry of the peer, the others join it.
pub push_all-empty :
    (peer_id : Str) (e : Endpoint) (es : List Endpoint)
    → push_all peer_id (e ∷ es) BtreeMap.empty ≡ (peer_id, e ∷ es) ∷ []
unfolding push_all BtreeMap.insert BtreeMap.get
push_all-empty peer_id e es = push_all_one peer_id (e ∷ []) es

ip_of_address : (Name : Type 0) (ip : IpAddr) → ip_of (address_data {Name = Name} ip) ≡ some ip
ip_of_address Name (v4 a) = refl
ip_of_address Name (v6 a) = refl

module _ {Name : Type 0} (n : NameApi Name) (peer_id : Str) (service_name : Name)
    (names : ServiceNames n peer_id service_name) (ports : BtreeMap Name (List (ℕ × Str))) where
  open names use {local, target}

  -- The port is found under its target, for this peer alone.
  abbrev pub IsFound : ℕ → Type 0
  IsFound port = BtreeMap.get ⦃o = n.order⦄ (target port) ports ≡ some ((port, peer_id) ∷ [])

  read_address :
      (port : ℕ) (ip : IpAddr) (m : BtreeMap Str (List Endpoint))
      → port < 65536
      → IsFound port
      → read_additional n local ports (from_rdata (target port) 0 (address_data ip)) m
        ≡ push_all peer_id ((ip, port) ∷ []) m
  unfolding read_additional push_addrs push_all
  read_address port ip m b f = simp (names.target_base port b, ip_of_address Name ip, f)

  read_address_records :
      (port : ℕ) (ips : List IpAddr) (rest : List (DnsRecord Name))
      (m : BtreeMap Str (List Endpoint))
      → port < 65536
      → IsFound port
      → read_additionals n local ports
          (address_records n peer_id service_name names port ips ++ rest)
          m
        ≡ read_additionals n local ports rest (push_all peer_id (with_port port ips) m)
  unfolding read_additionals address_records with_port push_all
  read_address_records port [] rest m b f = refl
  read_address_records port (ip ∷ ips) rest m b f =
      ap
        (read_additionals n local ports
          (address_records n peer_id service_name names port ips ++ rest))
        (read_address port ip m b f)
      ∙ read_address_records port ips rest _ b f

  pub read_group_additionals :
      (g : Groups) (m : BtreeMap Str (List Endpoint))
      → ArePorts g
      → All (λ (e : ℕ × List IpAddr). IsFound e.0) g
      → read_additionals n local ports (group_additionals n peer_id service_name names g) m
        ≡ push_all peer_id (endpoints g) m
  unfolding read_additionals group_additionals endpoints push_all
  read_group_additionals [] m a f = refl
  read_group_additionals ((port, ips) ∷ g) m a f =
      read_address_records port ips _ m a.0 f.0
      ∙ read_group_additionals g _ a.1 f.1
      ∙ sym (push_all-append peer_id (with_port port ips) (endpoints g) m)

-- Appending an address to a port's group.
contains-with_port :
    (x : Endpoint) (port : ℕ) (ips : List IpAddr) (ip : IpAddr)
    → contains x (with_port port (ips ++ ip ∷ []))
      ≡ (contains x (with_port port ips) || is_eq (endpoint_cmp x (ip, port)))
unfolding with_port contains
contains-with_port x port [] ip = ground arith
contains-with_port x port (i ∷ ips) ip = ground (arith, contains-with_port x port ips ip)

abbrev push_ip : ℕ → IpAddr → Groups → Groups
push_ip port ip g = BtreeMap.entry_or_insert port [] (λ l. l ++ ip ∷ []) g

contains-push_ip :
    (x : Endpoint) (port : ℕ) (ip : IpAddr) (g : Groups)
    → IsOrdered g
    → contains x (endpoints (push_ip port ip g))
      ≡ (contains x (endpoints g) || is_eq (endpoint_cmp x (ip, port)))
unfolding endpoints with_port contains nat_ord BtreeMap.get BtreeMap.insert
contains-push_ip x port ip [] o = ground arith
contains-push_ip x port ip ((p, ips) ∷ g) o = ground (
  arith,
  contains-append x (with_port p ips) (endpoints g),
  contains-append x (with_port p (ips ++ ip ∷ [])) (endpoints g),
  contains-append x (with_port p ips) (endpoints (push_ip port ip g)),
  contains-with_port x p ips ip,
  contains-push_ip x port ip g o.1,
  λ (e : nat_ord.cmp port p ≡ lt).
      get-Below port g (All-imp (λ y. nat_ord.lt_trans port p y e) (keys g) o.0),
)

pub contains-group_by_port :
    (x : Endpoint) (es : List Endpoint) (g : Groups)
    → IsOrdered g
    → contains x (endpoints (group_by_port es g)) ≡ (contains x (endpoints g) || contains x es)
unfolding group_by_port contains
contains-group_by_port x [] g o = ground arith
contains-group_by_port x ((ip, port) ∷ es) g o =
    contains-group_by_port x es (push_ip port ip g) (insert-IsOrdered port _ g o)
    ∙ ground (arith, contains-push_ip x port ip g o)

pub group_by_port-IsOrdered :
    (es : List Endpoint) (g : Groups) → IsOrdered g → IsOrdered (group_by_port es g)
unfolding group_by_port
group_by_port-IsOrdered [] g o = o
group_by_port-IsOrdered ((ip, port) ∷ es) g o =
    group_by_port-IsOrdered es (push_ip port ip g) (insert-IsOrdered port _ g o)

insert-ArePorts :
    (port : ℕ) (ips : List IpAddr) (g : Groups)
    → port < 65536
    → ArePorts g
    → ArePorts (BtreeMap.insert port ips g)
unfolding BtreeMap.insert
insert-ArePorts port ips [] b a = (b, tt)
insert-ArePorts port ips ((p, w) ∷ g) b a = ground (arith, insert-ArePorts port ips g b)

pub group_by_port-ArePorts :
    (es : List Endpoint) (g : Groups)
    → All (λ (e : Endpoint). e.1 < 65536) es
    → ArePorts g
    → ArePorts (group_by_port es g)
unfolding group_by_port
group_by_port-ArePorts [] g b a = a
group_by_port-ArePorts ((ip, port) ∷ es) g b a =
    group_by_port-ArePorts es (push_ip port ip g) b.1 (insert-ArePorts port _ g b.0 a)

-- Every group stands under a key of the groups.
pub keys_of : (g : Groups) → All (λ (e : ℕ × List IpAddr). contains e.0 (keys g) ≡ true) g
unfolding contains
keys_of [] = tt
keys_of ((p, ips) ∷ g) = (rw (nat_ord.cmp_refl p), All-imp (λ e h. ground arith) g (keys_of g))
