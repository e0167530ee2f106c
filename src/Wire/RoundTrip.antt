-- ===== src/Wire/RoundTrip.antt =====
-- The announcement of a peer as a message, and what a receiver makes of it.
use swarm_discovery.Prelude.{
  ℕ, ◌<◌, ◌≡◌, refl, sym, ap, ◌∙◌, true, false, List, [], ◌∷◌, ◌++◌, none, some, All, append-nil,
  if◌then◌else◌,
}
use swarm_discovery.Std.BtreeMap
use swarm_discovery.Std.BtreeMap.{BtreeMap, keys, IsOrdered}
use swarm_discovery.Std.BtreeMap.Laws.{get_one}
use swarm_discovery.Std.Net.{IpAddr, Endpoint, ip_ord, endpoint-IsExact}
use swarm_discovery.Std.Ord.{list_ord, nat_ord, pair_ord}
use swarm_discovery.Std.Outcome.{ok}
use swarm_discovery.Std.Sort.{contains, IsAscending, sort_unstable, dedup}
use swarm_discovery.Std.Sort.Laws.{
  IsAscending-ext, dedup-sort_unstable-IsAscending, contains-dedup-sort_unstable,
  is_empty-dedup-sort_unstable,
}
use swarm_discovery.Std.Text.{Str, IsUtf8, is_empty}
use swarm_discovery.Std.Time.{Instant}
use swarm_discovery.Discoverer.{Discoverer}
use swarm_discovery.Dns.{NameApi, Codec, Message, DnsRecord, from_rdata, new_message, txt}
use swarm_discovery.Dns
use swarm_discovery.Messages.{response}
use swarm_discovery.Peer.{Peer, TxtData}
use swarm_discovery.Receiver.{
  handle_msg, asks_for, read_response, read_answers, read_additionals, read_data, build_peers,
  unwrap_or_empty,
}
use swarm_discovery.Sender.Response.{make_response, announce, add_txt, txt_parts, group_by_port}
use swarm_discovery.Wire.Names.{ServiceNames}
use swarm_discovery.Wire.Services.{
  Groups, ArePorts, srv_answers, group_additionals, push_ports, add_services_lem, read_srv_answers,
  read_own, get-push_ports,
}
use swarm_discovery.Wire.Addresses.{
  endpoints, push_all, push_all-empty, read_group_additionals, contains-group_by_port,
  group_by_port-IsOrdered, group_by_port-ArePorts, keys_of, IsFound,
}
use swarm_discovery.Wire.Attributes.{IsPlain, read_strings-txt_parts}

-- What the operations on the local peer keep of it, and plain keys.
pub record IsAnnounceable (p : Peer) : Type 0 where
  pub ascending : IsAscending p.addrs
  pub ports : All (λ (e : Endpoint). e.1 < 65536) p.addrs
  pub plain : All IsPlain p.txt
  pub ordered : IsOrdered p.txt

abbrev pub groups : Peer → Groups
groups p = group_by_port p.addrs BtreeMap.empty

-- The addresses that a receiver collects, sorted, are the addresses of the peer.
addresses_back :
    (p : Peer) → IsAscending p.addrs → dedup (sort_unstable (endpoints (groups p))) ≡ p.addrs
unfolding contains endpoints
addresses_back p h =
    IsAscending-ext endpoint-IsExact _ _ (dedup-sort_unstable-IsAscending (endpoints (groups p))) h
      (λ z.
        contains-dedup-sort_unstable z (endpoints (groups p))
        ∙ contains-group_by_port z p.addrs BtreeMap.empty tt
        ∙ refl)

own_txt :
    (peer_id : Str) (t : TxtData)
    → unwrap_or_empty
        (BtreeMap.get peer_id (if is_empty t then BtreeMap.empty else (peer_id, t) ∷ []))
      ≡ t
unfolding BtreeMap.get
own_txt peer_id [] = refl
own_txt peer_id (e ∷ t) = ap unwrap_or_empty (get_one peer_id (e ∷ t))

-- What a receiver should make of a peer: nothing without addresses, and else the peer, seen now.
abbrev pub heard : Str → Instant → Peer → BtreeMap Str Peer
heard peer_id now p =
    if is_empty p.addrs then BtreeMap.empty else (peer_id, record p { last_seen = now }) ∷ []

module _ {Name : Type 0} (n : NameApi Name) (peer_id : Str) (service_name : Name)
    (names : ServiceNames n peer_id service_name) where
  open names use {own, local, target}

  unfoldable pub txt_answers : TxtData → List (DnsRecord Name)
  txt_answers attributes =
      if is_empty attributes then [] else from_rdata own 0 (txt (txt_parts attributes)) ∷ []

  -- An SRV record for each port, the TXT record, and an address record for each address.
  unfoldable pub announcement : Peer → Message Name
  unfolding txt_answers
  announcement p = record {
    id = 0;
    message_type = Dns.response;
    authoritative = true;
    queries = [];
    answers = srv_answers n peer_id service_name names (groups p) ++ txt_answers p.txt;
    additionals = group_additionals n peer_id service_name names (groups p);
  }

  add_txt_lem :
      (attributes : TxtData) (msg : Message Name)
      → add_txt own attributes msg ≡ record msg { answers = msg.answers ++ txt_answers attributes }
  unfolding add_txt txt_answers
  add_txt_lem [] msg = cc (append-nil msg.answers)
  add_txt_lem (e ∷ rest) msg = refl

  pub announce_lem :
      (p : Peer)
      → All (λ (e : Endpoint). e.1 < 65536) p.addrs
      → announce n peer_id service_name p ≡ ok (announcement p)
  unfolding announce announcement
  announce_lem p b = rw (
    names.own_parsed,
    add_services_lem n peer_id service_name names (groups p) _
        (group_by_port-ArePorts p.addrs [] b tt),
    add_txt_lem,
  )

  module _ (valid : IsUtf8 peer_id) where
    read_txt_answers :
        (t : TxtData) (m : BtreeMap Name (List (ℕ × Str)))
        → All IsPlain t
        → IsOrdered t
        → read_answers n service_name (txt_answers t) (m, BtreeMap.empty)
          ≡ (m, (if is_empty t then BtreeMap.empty else (peer_id, t) ∷ []))
    unfolding read_answers txt_answers read_data
    read_txt_answers [] m plain o = refl
    read_txt_answers (e ∷ rest) m plain o =
        read_own n peer_id service_name names valid (from_rdata own 0 (txt (txt_parts (e ∷ rest))))
          (m, BtreeMap.empty) refl refl
        ∙ ap (λ attributes. (m, attributes)) (read_strings-txt_parts peer_id (e ∷ rest) plain o)

    -- The services that the reader collects.
    read_announced :
        (p : Peer)
        → IsAnnounceable p
        → read_answers n service_name (announcement p).answers (BtreeMap.empty, BtreeMap.empty) ≡ (
          push_ports n peer_id service_name names (groups p) BtreeMap.empty,
          (if is_empty p.txt then BtreeMap.empty else (peer_id, p.txt) ∷ []),
        )
    unfolding announcement
    read_announced p a =
        read_srv_answers n peer_id service_name names valid (groups p) (txt_answers p.txt) _
        ∙ read_txt_answers p.txt _ a.plain a.ordered

    groups-IsFound :
        (g sub : Groups)
        → ArePorts g
        → IsOrdered g
        → All (λ (e : ℕ × List IpAddr). contains e.0 (keys g) ≡ true) sub
        → ArePorts sub
        → All
            (λ (e : ℕ × List IpAddr).
              IsFound n peer_id service_name names
                (push_ports n peer_id service_name names g BtreeMap.empty)
                e.0)
            sub
    unfolding BtreeMap.get
    groups-IsFound g [] a o known b = tt
    groups-IsFound g ((port, ips) ∷ sub) a o known b = (
      get-push_ports n peer_id service_name names g BtreeMap.empty port a o b.0 ∙ rw known.0,
      groups-IsFound g sub a o known.1 b.1,
    )

    read_announced_addresses :
        (p : Peer)
        → IsAnnounceable p
        → read_additionals n local
            (push_ports n peer_id service_name names (groups p) BtreeMap.empty)
            (announcement p).additionals
            BtreeMap.empty
          ≡ push_all peer_id (endpoints (groups p)) BtreeMap.empty
    unfolding announcement
    read_announced_addresses p a =
        read_group_additionals n peer_id service_name names _ (groups p) BtreeMap.empty are_ports (
          groups-IsFound (groups p) (groups p) are_ports (group_by_port-IsOrdered p.addrs [] tt)
            (keys_of (groups p)) are_ports)
      where
        are_ports : ArePorts (groups p)
        are_ports = group_by_port-ArePorts p.addrs [] a.ports tt

    build_one :
        (now : Instant) (p : Peer) (e : Endpoint) (es : List Endpoint)
        → dedup (sort_unstable (e ∷ es)) ≡ p.addrs
        → build_peers now
            ((peer_id, e ∷ es) ∷ [])
            (if is_empty p.txt then BtreeMap.empty else (peer_id, p.txt) ∷ [])
            BtreeMap.empty
          ≡ heard peer_id now p
    unfolding build_peers BtreeMap.get BtreeMap.insert
    build_one now p e es h =
        let some_left = ap is_empty (sym h) ∙ is_empty-dedup-sort_unstable e es in
        rw (some_left, h, own_txt peer_id p.txt)

    heard_from :
        (now : Instant) (p : Peer) (es : List Endpoint)
        → dedup (sort_unstable es) ≡ p.addrs
        → build_peers now
            (push_all peer_id es BtreeMap.empty)
            (if is_empty p.txt then BtreeMap.empty else (peer_id, p.txt) ∷ [])
            BtreeMap.empty
          ≡ heard peer_id now p
    unfolding build_peers push_all sort_unstable dedup
    heard_from now p [] h = rw (← h)
    heard_from now p (e ∷ es) h = rw (push_all-empty peer_id e es) (build_one now p e es h)

    pub read_response-announcement :
        (now : Instant) (p : Peer)
        → IsAnnounceable p
        → read_response n service_name local now (announcement p) ≡ heard peer_id now p
    unfolding read_response
    read_response-announcement now p a =
        rw (read_announced p a, read_announced_addresses p a)
          (heard_from now p (endpoints (groups p)) (addresses_back p a.ascending))

    -- A peer without a record of its own says nothing.
    pub make_response_absent :
        (d : Discoverer)
        → BtreeMap.get d.peer_id d.peers ≡ none
        → make_response n d service_name ≡ ok none
    unfolding make_response
    make_response_absent d e = rw (e, make_response)

  -- Where the names of the service parse, `make_response` makes this announcement of the node's peer.
  pub make_response-announcement :
      (d : Discoverer) (p : Peer)
      → d.peer_id ≡ peer_id
      → BtreeMap.get d.peer_id d.peers ≡ some p
      → All (λ (e : Endpoint). e.1 < 65536) p.addrs
      → make_response n d service_name ≡ ok (some (announcement p))
  unfolding make_response
  make_response-announcement d p same e b = rw (e, make_response, same, announce_lem p b)

  asks_for-announcement : (p : Peer) → asks_for n service_name (announcement p).queries ≡ false
  unfolding announcement asks_for
  asks_for-announcement p = refl

  handle_msg-announcement :
      (codec : Codec Name) (now : Instant) (bytes : List ℕ) (from : IpAddr) (p : Peer)
      → IsUtf8 peer_id
      → IsAnnounceable p
      → codec.from_vec bytes ≡ some (announcement p)
      → handle_msg n codec now bytes service_name from ≡ ok (some (response (heard peer_id now p)))
  unfolding handle_msg
  handle_msg-announcement codec now bytes from p valid a parsed = rw (
    parsed,
    names.local_parsed,
    asks_for-announcement p,
    read_response-announcement valid now p a,
    handle_msg,
  )

  -- Bytes that a node parses as the message that `make_response` makes for a peer are handled as
  -- the response that holds this peer alone, with all its addresses and attributes, seen now; a
  -- peer that has no address left is not in the response. This is so if the names of the service
  -- parse as `ServiceNames` says, the identifier is UTF-8, the addresses stand in strict order,
  -- the ports are 16-bit numbers, and the attributes are ordered by keys that are UTF-8, not empty
  -- and without `=`, with values that are UTF-8.
  pub handle_msg-make_response :
      (codec : Codec Name) (now : Instant) (bytes : List ℕ) (from : IpAddr) (d : Discoverer)
      (p : Peer) (msg : Message Name)
      → IsUtf8 peer_id
      → d.peer_id ≡ peer_id
      → BtreeMap.get d.peer_id d.peers ≡ some p
      → IsAnnounceable p
      → make_response n d service_name ≡ ok (some msg)
      → codec.from_vec bytes ≡ some msg
      → handle_msg n codec now bytes service_name from ≡ ok (some (response (heard peer_id now p)))
  handle_msg-make_response codec now bytes from d p msg valid same e a made parsed =
      handle_msg-announcement codec now bytes from p valid a (rw is_announcement at parsed)
    where
      is_announcement : msg ≡ announcement p
      is_announcement = cc (make_response-announcement d p same e a.ports)
