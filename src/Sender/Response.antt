-- ===== src/Sender/Response.antt =====
-- `make_query`, `make_response` and `update_response` of src/sender.rs.
use swarm_discovery.Prelude.{
  ℕ, true, not, List, [], ◌∷◌, ◌++◌, Option, none, some, if◌then◌else◌, ◌==◌,
}
use swarm_discovery.Std.BtreeMap
use swarm_discovery.Std.BtreeMap.{BtreeMap}
use swarm_discovery.Std.Net
use swarm_discovery.Std.Net.{IpAddr, Endpoint, ip_ord}
use swarm_discovery.Std.Ord.{pair_ord, list_ord, nat_ord, is_eq}
use swarm_discovery.Std.Outcome.{Outcome, ok, ◌>>=◌, expect}
use swarm_discovery.Std.Sort.{sort_unstable, dedup, retain}
use swarm_discovery.Std.Text.{Str, codes, decimal, is_empty}
use swarm_discovery.Std.Time.{Instant}
use swarm_discovery.Discoverer.{Discoverer, update_me}
use swarm_discovery.Dns
use swarm_discovery.Dns.{
  NameApi, Message, Query, DnsRecord, RecordData, srv, txt, a, aaaa, internet, ptr, new_message,
  add_query, add_answer, add_additional, from_rdata,
}
use swarm_discovery.Messages.{
  GuardianInput, remove_all, remove_port, remove_addr, add_addr, set_txt, remove_txt, add_interface,
  remove_interface,
}
use swarm_discovery.Peer.{Peer, TxtData}

unfoldable pub make_query : {Name : Type 0} → Name → Message Name
make_query service_name =
    add_query (record { query_name = service_name; query_type = ptr; query_class = internet })
      (new_message 0 Dns.query)

-- `srv_map`: the addresses of each port.
unfoldable pub group_by_port : List Endpoint → BtreeMap ℕ (List IpAddr) → BtreeMap ℕ (List IpAddr)
group_by_port [] srv_map = srv_map
group_by_port ((ip, port) ∷ rest) srv_map =
    group_by_port rest (BtreeMap.entry_or_insert port [] (λ l. l ++ ip ∷ []) srv_map)

-- `format!("{}-{}.local.", peer_id, port)`
abbrev pub target_text : Str → ℕ → Str
target_text peer_id port = peer_id ++ codes "-" ++ decimal port ++ codes ".local."

-- `{k}={v}`, or the key alone
abbrev pub attribute_text : Str × Option Str → Str
attribute_text (k, none) = k
attribute_text (k, some v) = k ++ b'=' ∷ v

-- The strings of the TXT record; an empty key is left out.
unfoldable pub txt_parts : TxtData → List Str
txt_parts [] = []
txt_parts ((k, v) ∷ rest) =
    let others = txt_parts rest in if is_empty k then others else attribute_text (k, v) ∷ others

abbrev pub address_data : {Name : Type 0} → IpAddr → RecordData Name
address_data (Net.v4 addr) = a addr
address_data (Net.v6 addr) = aaaa addr

unfoldable pub add_addresses : {Name : Type 0} → Name → List IpAddr → Message Name → Message Name
add_addresses target [] msg = msg
add_addresses target (addr ∷ rest) msg =
    add_addresses target rest (add_additional (from_rdata target 0 (address_data addr)) msg)

unfoldable pub add_txt : {Name : Type 0} → Name → TxtData → Message Name → Message Name
unfolding txt_parts
add_txt my_srv_name attributes msg =
    if is_empty attributes
    then msg
    else add_answer (from_rdata my_srv_name 0 (txt (txt_parts attributes))) msg

module _ {Name : Type 0} (n : NameApi Name) where
  -- The loop over `srv_map`.
  unfoldable pub add_services :
      Str → Name → BtreeMap ℕ (List IpAddr) → Message Name → Outcome (Message Name)
  unfolding add_addresses
  add_services peer_id my_srv_name [] msg = ok msg
  add_services peer_id my_srv_name ((port, addrs) ∷ rest) msg = do
    target ← expect (n.from_str (target_text peer_id port))
    add_services peer_id my_srv_name rest (
        add_addresses target addrs
          (add_answer (from_rdata my_srv_name 0 (srv 0 0 port target)) msg))

  -- The name that `spawn` has checked.
  abbrev pub service_instance : Str → Name → Option Name
  service_instance peer_id service_name = elim (n.from_str peer_id) [
    | none ↦ none
    | some name ↦ n.append_domain name service_name
  ]

  unfoldable pub announce : Str → Name → Peer → Outcome (Message Name)
  unfolding group_by_port add_services add_txt
  announce peer_id service_name peer = do
    my_srv_name ← expect (service_instance peer_id service_name)
    msg ←
        add_services peer_id my_srv_name (group_by_port peer.addrs BtreeMap.empty)
          (record (new_message 0 Dns.response) { authoritative = true })
    ok (add_txt my_srv_name peer.txt msg)

  unfoldable pub make_response : Discoverer → Name → Outcome (Option (Message Name))
  unfolding announce
  make_response discoverer service_name = elim (BtreeMap.get discoverer.peer_id discoverer.peers) [
    | none ↦ ok none
    | some peer ↦ do msg ← announce discoverer.peer_id service_name peer; ok (some msg)
  ]

abbrev get_me : (Peer → Peer) → Discoverer → Discoverer
get_me f d = record d { peers = BtreeMap.get_mut d.peer_id f d.peers }

-- `for addr in addrs { push; sort_unstable; dedup }`
unfoldable pub push_each : ℕ → List IpAddr → List Endpoint → List Endpoint
push_each port [] addrs = addrs
push_each port (addr ∷ rest) addrs =
    push_each port rest (dedup (sort_unstable (addrs ++ (addr, port) ∷ [])))

-- What `update_response` does to the discoverer.
unfoldable pub update_peers : Instant → GuardianInput → Discoverer → Discoverer
unfolding update_me push_each
update_peers now remove_all d = record d { peers = BtreeMap.remove d.peer_id d.peers }
update_peers now (remove_port port) d =
    get_me (λ me. record me { addrs = retain (λ e. not (e.1 == port)) me.addrs }) d
update_peers now (remove_addr addr) d =
    get_me (λ me. record me { addrs = retain (λ e. not (is_eq (ip_ord.cmp e.0 addr))) me.addrs }) d
update_peers now (add_addr port addrs) d =
    update_me now (λ me. record me { addrs = push_each port addrs me.addrs }) d
update_peers now (set_txt key value) d =
    update_me now (λ me. record me { txt = BtreeMap.insert key value me.txt }) d
update_peers now (remove_txt key) d =
    get_me (λ me. record me { txt = BtreeMap.remove key me.txt }) d
update_peers now (add_interface addr) d = d
update_peers now (remove_interface addr) d = d

module _ {Name : Type 0} (n : NameApi Name) where
  -- The response after an update, beside the discoverer that `update_peers` leaves.
  unfoldable pub updated_response :
      GuardianInput → Discoverer → Name → Outcome (Option (Message Name))
  unfolding make_response
  updated_response (add_interface addr) d service_name = ok none
  updated_response (remove_interface addr) d service_name = ok none
  updated_response (remove_txt key) d service_name = elim (BtreeMap.get d.peer_id d.peers) [
    | none ↦ ok none
    | some _ ↦ make_response n d service_name
  ]
  updated_response _ d service_name = make_response n d service_name

  unfoldable pub update_response :
      Instant → Discoverer → Name → GuardianInput → Outcome (Discoverer × Option (Message Name))
  unfolding update_peers updated_response
  update_response now discoverer service_name msg = do
    let discoverer' = update_peers now msg discoverer
    response ← updated_response msg discoverer' service_name
    ok (discoverer', response)
