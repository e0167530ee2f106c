-- ===== src/Wire/Services.antt =====
-- The SRV records: what `add_services` writes, and the ports that `read_answers` collects from them.
use swarm_discovery.Prelude.{
  ℕ, ◌<◌, ◌≡◌, refl, ap, ◌∙◌, List, [], ◌∷◌, ◌++◌, some, arith, All, append_assoc, append-nil,
  if◌then◌else◌,
}
use swarm_discovery.Std.BtreeMap
use swarm_discovery.Std.BtreeMap.{BtreeMap, keys, IsOrdered}
use swarm_discovery.Std.BtreeMap.Laws.{get-insert}
use swarm_discovery.Std.Net.{IpAddr}
use swarm_discovery.Std.Ord.{list_ord, nat_ord}
use swarm_discovery.Std.Outcome.{ok}
use swarm_discovery.Std.Sort.{contains}
use swarm_discovery.Std.Sort.Laws.{not-contains-Below}
use swarm_discovery.Std.Text.{Str, IsUtf8, from_utf8}
use swarm_discovery.Dns.{NameApi, Message, DnsRecord, srv, from_rdata, internet, add_additional}
use swarm_discovery.Receiver.{
  read_answers, read_answer, read_data, Services, name_ord, unwrap_or_empty, label_text,
}
use swarm_discovery.Sender.Response.{add_services, add_addresses, address_data}
use swarm_discovery.Wire.Names.{ServiceNames}

abbrev pub Groups : Type 0
Groups = BtreeMap ℕ (List IpAddr)

abbrev pub ArePorts : Groups → Type 0
ArePorts g = All (λ (e : ℕ × List IpAddr). e.0 < 65536) g

module _ {Name : Type 0} (n : NameApi Name) (peer_id : Str) (service_name : Name)
    (names : ServiceNames n peer_id service_name) where
  open names use {own, target}

  unfoldable pub srv_answers : Groups → List (DnsRecord Name)
  srv_answers [] = []
  srv_answers ((port, ips) ∷ g) = from_rdata own 0 (srv 0 0 port (target port)) ∷ srv_answers g

  unfoldable pub address_records : ℕ → List IpAddr → List (DnsRecord Name)
  address_records port [] = []
  address_records port (ip ∷ ips) =
      from_rdata (target port) 0 (address_data ip) ∷ address_records port ips

  unfoldable pub group_additionals : Groups → List (DnsRecord Name)
  group_additionals [] = []
  group_additionals ((port, ips) ∷ g) = address_records port ips ++ group_additionals g

  abbrev pub extended : List (DnsRecord Name) → List (DnsRecord Name) → Message Name → Message Name
  extended an ad msg = record msg {
    answers = msg.answers ++ an;
    additionals = msg.additionals ++ ad;
  }

  add_addresses_lem :
      (port : ℕ) (ips : List IpAddr) (msg : Message Name)
      → add_addresses (target port) ips msg
        ≡ record msg { additionals = msg.additionals ++ address_records port ips }
  unfolding add_addresses address_records
  add_addresses_lem port [] msg = cc (append-nil msg.additionals)
  add_addresses_lem port (ip ∷ ips) msg =
      add_addresses_lem port ips (add_additional (from_rdata (target port) 0 (address_data ip)) msg)
      ∙ simp append_assoc

  pub add_services_lem :
      (g : Groups) (msg : Message Name)
      → ArePorts g
      → add_services n peer_id own g msg ≡ ok (extended (srv_answers g) (group_additionals g) msg)
  unfolding add_services srv_answers group_additionals
  add_services_lem [] msg h = cc (append-nil msg.additionals, append-nil msg.answers)
  add_services_lem ((port, ips) ∷ g) msg h =
      rw (names.target_parsed port h.0, add_addresses_lem port ips, add_services_lem g _ h.1)
        (simp append_assoc)

  -- The ports that a reader collects from the SRV records.
  unfoldable pub push_ports :
      Groups → BtreeMap Name (List (ℕ × Str)) → BtreeMap Name (List (ℕ × Str))
  push_ports [] m = m
  push_ports ((port, ips) ∷ g) m =
      push_ports g
        (BtreeMap.entry_or_insert ⦃o = n.order⦄ (target port) [] (λ l. l ++ (port, peer_id) ∷ []) m)

  module _ (valid : IsUtf8 peer_id) where
    label_text_own : label_text (n.first_label own) ≡ some peer_id
    unfolding from_utf8
    label_text_own = rw (names.own_label, valid)

    pub read_own :
        (r : DnsRecord Name) (s : Services n)
        → r.name ≡ own
        → r.dns_class ≡ internet
        → read_answer n service_name r s ≡ read_data n peer_id r.rdata s
    unfolding read_answer
    read_own r s e c = simp (c, e, names.own_base, label_text_own)

    pub read_srv_answers :
        (g : Groups) (rest : List (DnsRecord Name)) (s : Services n)
        → read_answers n service_name (srv_answers g ++ rest) s
          ≡ read_answers n service_name rest (push_ports g s.0, s.1)
    unfolding read_answers srv_answers push_ports read_data
    read_srv_answers [] rest s = refl
    read_srv_answers ((port, ips) ∷ g) rest s =
        ap (read_answers n service_name (srv_answers g ++ rest))
          (read_own (from_rdata own 0 (srv 0 0 port (target port))) s refl refl)
        ∙ read_srv_answers g rest _

  -- Each port of the groups is found under its own target, and stands there once.
  pub get-push_ports :
      (g : Groups) (m : BtreeMap Name (List (ℕ × Str))) (q : ℕ)
      → ArePorts g
      → IsOrdered g
      → q < 65536
      → BtreeMap.get ⦃o = n.order⦄ (target q) (push_ports g m) ≡ (
          if contains q (keys g)
          then some (unwrap_or_empty (BtreeMap.get ⦃o = n.order⦄ (target q) m) ++ (q, peer_id) ∷ [])
          else BtreeMap.get ⦃o = n.order⦄ (target q) m)
  unfolding push_ports contains nat_ord
  get-push_ports [] m q a o b = refl
  get-push_ports ((port, ips) ∷ g) m q a o b =
      let found = unwrap_or_empty (BtreeMap.get ⦃o = n.order⦄ (target port) m) in
      let m' =
        BtreeMap.entry_or_insert ⦃o = n.order⦄ (target port) [] (λ l. l ++ (port, peer_id) ∷ [])
          m in
      ground (
        arith,
        get-push_ports g m' q a.1 o.1 b,
        get-insert ⦃o = n.order⦄ (target q) (target port) (found ++ (port, peer_id) ∷ []) m,
        names.target_injective q port b a.0,
        not-contains-Below port (keys g) o.0,
        n.order.cmp_refl (target q),
      )
