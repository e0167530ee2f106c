-- ===== src/Spawn/Panics.antt =====
-- `spawn` checks one name; `make_response` forms another for each port, and panics if that fails.
use swarm_discovery.Prelude.{
  ℕ, compare, ◌≡◌, refl, ap, ◌∙◌, eq, Bool, true, not, ◌&&◌, List, [], ◌∷◌, ◌++◌, some, arith,
  Option-cases, inl, inr,
}
use swarm_discovery.Std.BtreeMap
use swarm_discovery.Std.BtreeMap.{BtreeMap}
use swarm_discovery.Std.Net.{IpAddr, Endpoint}
use swarm_discovery.Std.Ord.{nat_ord, list_ord, compare-IsExact}
use swarm_discovery.Std.Outcome.{Outcome, ok, panic, ◌>>=◌}
use swarm_discovery.Std.Text.{Str}
use swarm_discovery.Discoverer.{Discoverer}
use swarm_discovery.Dns.{NameApi, Message}
use swarm_discovery.Peer.{Peer}
use swarm_discovery.Sender.Response.{
  target_text, service_instance, group_by_port, add_services, announce, make_response,
}
use swarm_discovery.Socket.Packets.{is_some, is_panic}

module _ {Name : Type 0} (n : NameApi Name) (peer_id : Str) where
  -- The name `{peer_id}-{port}.local.` can be made.
  abbrev pub has_target : ℕ → Bool
  has_target port = is_some (n.from_str (target_text peer_id port))

  abbrev pub have_targets : List Endpoint → Bool
  have_targets [] = true
  have_targets (e ∷ es) = has_target e.1 && have_targets es

  abbrev ports_have_targets : BtreeMap ℕ (List IpAddr) → Bool
  ports_have_targets [] = true
  ports_have_targets ((port, ips) ∷ g) = has_target port && ports_have_targets g

  ports_have_targets-insert :
      (port : ℕ) (ips : List IpAddr) (g : BtreeMap ℕ (List IpAddr))
      → ports_have_targets (BtreeMap.insert port ips g) ≡ (has_target port && ports_have_targets g)
  unfolding BtreeMap.insert nat_ord
  ports_have_targets-insert port ips [] = refl
  ports_have_targets-insert port ips ((p, w) ∷ g) = ground (
    arith,
    has_target port,
    has_target p,
    λ (e : compare port p ≡ eq). ap has_target (compare-IsExact port p e),
    ports_have_targets-insert port ips g,
  )

  ports_have_targets-group_by_port :
      (es : List Endpoint) (g : BtreeMap ℕ (List IpAddr))
      → ports_have_targets (group_by_port es g) ≡ (have_targets es && ports_have_targets g)
  unfolding group_by_port
  ports_have_targets-group_by_port [] g = refl
  ports_have_targets-group_by_port ((ip, port) ∷ es) g =
      ports_have_targets-group_by_port es (BtreeMap.entry_or_insert port [] (λ l. l ++ ip ∷ []) g)
      ∙ rw (ports_have_targets-insert) (ground (arith, have_targets es, has_target port))

  add_services-panic :
      (own : Name) (g : BtreeMap ℕ (List IpAddr)) (msg : Message Name)
      → is_panic (add_services n peer_id own g msg) ≡ not (ports_have_targets g)
  unfolding add_services
  add_services-panic own [] msg = refl
  add_services-panic own ((port, ips) ∷ g) msg =
      elim (Option-cases (n.from_str (target_text peer_id port))) [
        | inl e ↦ rw (e, add_services) refl
        | inr (target, e) ↦ rw (e, add_services) (add_services-panic own g _)
      ]

  bind_panic :
      {A B : Type 0} (m : Outcome A) (f : A → B) → is_panic (m >>= λ x. ok (f x)) ≡ is_panic m
  bind_panic (ok x) f = refl
  bind_panic panic f = refl

  announce-panic :
      (service own : Name) (p : Peer)
      → service_instance n peer_id service ≡ some own
      → is_panic (announce n peer_id service p) ≡ not (have_targets p.addrs)
  unfolding announce
  announce-panic service own p e =
      rw (e, announce)
        (bind_panic (add_services n peer_id own (group_by_port p.addrs BtreeMap.empty) _) _
          ∙ add_services-panic own (group_by_port p.addrs BtreeMap.empty) _
          ∙ ap not (ports_have_targets-group_by_port p.addrs BtreeMap.empty)
          ∙ ground (arith, have_targets p.addrs))

-- For a node whose own name can be made, as `spawn` has checked, `make_response` panics exactly if for
-- the port of one of its addresses the name `{peer_id}-{port}.local.` cannot be made.
pub make_response_panics :
    {Name : Type 0} (n : NameApi Name) (d : Discoverer) (service own : Name) (p : Peer)
    → service_instance n d.peer_id service ≡ some own
    → BtreeMap.get d.peer_id d.peers ≡ some p
    → is_panic (make_response n d service) ≡ not (have_targets n d.peer_id p.addrs)
unfolding make_response
make_response_panics n d service own p named found =
    rw (found, make_response)
      (bind_panic n d.peer_id (announce n d.peer_id service p) some
        ∙ announce-panic n d.peer_id service own p named)
