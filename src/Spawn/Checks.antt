-- ===== src/Spawn/Checks.antt =====
-- What a node that was spawned can rely on, and when `spawn` refuses.
use swarm_discovery.Prelude.{◌≡◌, refl, subst, ap, true, Option, none, some, arith}
use swarm_discovery.Discoverer.{Discoverer}
use swarm_discovery.Dns.{NameApi}
use swarm_discovery.Peer.{Mode}
use swarm_discovery.Sender.Response.{service_instance}
use swarm_discovery.Socket.{SocketApi, Sockets, SocketError, Result, good, fail, new_sockets}
use swarm_discovery.Socket.Packets.{is_used, serves, new_sockets-serves}
use swarm_discovery.Spawn.{
  Spawned, SpawnError, service_text, spawn, check_names, check_peer_id, check_appended, sockets,
  service_name, name_from_peer_id, append_service_name,
}

module _ {Name Os : Type 0} (n : NameApi Name) (api : SocketApi Os) where
  -- The names that the checks have found, for the sockets `s`.
  abbrev Checked : Discoverer → Sockets → Spawned Name → Type 0
  Checked d s spawned =
      (own : Name) × (spawned.node_sockets ≡ s)
      × (n.from_str (service_text d) ≡ some spawned.name_of_service)
      × (service_instance n d.peer_id spawned.name_of_service ≡ some own)

  module _ (d : Discoverer) (s : Sockets) (spawned : Spawned Name) where
    check_appended-Checked :
        (service peer : Name)
        → n.from_str (service_text d) ≡ some service
        → n.from_str d.peer_id ≡ some peer
        → check_appended n api peer s service ≡ good spawned
        → Checked d s spawned
    unfolding check_appended
    check_appended-Checked service peer e p h = appended (n.append_domain peer service) refl h
      where
        appended :
            (o : Option Name)
            → n.append_domain peer service ≡ o
            → elim o as (λ _. Result (SpawnError Name) (Spawned Name)) [
              | none ↦ fail (append_service_name service)
              | some _ ↦ good (record { node_sockets = s; name_of_service = service })
            ]
              ≡ good spawned
            → Checked d s spawned
        appended none q h = cc
        appended (some own) q h =
            let same : record { node_sockets = s; name_of_service = service } ≡ spawned =
              ground arith in
            subst (Checked d s) same (own, refl, e, rw (p, service_instance) q)

    check_peer_id-Checked :
        (service : Name)
        → n.from_str (service_text d) ≡ some service
        → check_peer_id n api d s service ≡ good spawned
        → Checked d s spawned
    unfolding check_peer_id
    check_peer_id-Checked service e h = identified (n.from_str d.peer_id) refl h
      where
        identified :
            (o : Option Name)
            → n.from_str d.peer_id ≡ o
            → elim o as (λ _. Result (SpawnError Name) (Spawned Name)) [
              | none ↦ fail (name_from_peer_id d.peer_id)
              | some peer ↦ check_appended n api peer s service
            ]
              ≡ good spawned
            → Checked d s spawned
        identified none p h = cc
        identified (some peer) p h = check_appended-Checked service peer e p h

    check_names-Checked : check_names n api d s ≡ good spawned → Checked d s spawned
    unfolding check_names
    check_names-Checked h = parsed (n.from_str (service_text d)) refl h
      where
        parsed :
            (o : Option Name)
            → n.from_str (service_text d) ≡ o
            → elim o as (λ _. Result (SpawnError Name) (Spawned Name)) [
              | none ↦ fail (service_name d.name d.protocol)
              | some service ↦ check_peer_id n api d s service
            ]
              ≡ good spawned
            → Checked d s spawned
        parsed none e h = cc
        parsed (some service) e h = check_peer_id-Checked service e h

  -- What the actors rely on, after `spawn` has succeeded: the service has the name that is asked for,
  -- the two `expect`s of `make_response` for the name of the node itself hold, and there is a socket
  -- for each mode in which the class of the node lets it send.
  pub spawn_good :
      (d : Discoverer) (os os' : Os) (spawned : Spawned Name)
      → spawn n api d os ≡ (good spawned, os')
      → (own : Name) × (n.from_str (service_text d) ≡ some spawned.name_of_service)
        × (service_instance n d.peer_id spawned.name_of_service ≡ some own)
        × ((mode : Mode) → is_used d.class mode ≡ true → serves mode spawned.node_sockets ≡ true)
  unfolding spawn
  spawn_good d os os' spawned h =
      created (new_sockets api d.class d.multicast_interfaces os) refl (ap (λ r. r.0) h)
    where
      created :
          (r : Result SocketError Sockets × Os)
          → new_sockets api d.class d.multicast_interfaces os ≡ r
          → elim r.0 as (λ _. Result (SpawnError Name) (Spawned Name)) [
            | fail e ↦ fail (sockets e)
            | good s ↦ check_names n api d s
          ]
            ≡ good spawned
          → (own : Name) × (n.from_str (service_text d) ≡ some spawned.name_of_service)
            × (service_instance n d.peer_id spawned.name_of_service ≡ some own)
            × ((mode : Mode)
                → is_used d.class mode ≡ true
                → serves mode spawned.node_sockets ≡ true)
      created (fail e, os2) q h = cc
      created (good s, os2) q h =
          let (own, same, e, p) = check_names-Checked d s spawned h in
          (
            own,
            e,
            p,
            λ mode used.
                rw same
                  (new_sockets-serves api d.class d.multicast_interfaces os os2 s mode q used),
          )

  -- Where the sockets can be created, and the names of the service and of the node within it can be
  -- made, `spawn` succeeds.
  pub spawn_complete :
      (d : Discoverer) (os os' : Os) (s : Sockets) (service own : Name)
      → new_sockets api d.class d.multicast_interfaces os ≡ (good s, os')
      → n.from_str (service_text d) ≡ some service
      → service_instance n d.peer_id service ≡ some own
      → spawn n api d os ≡ (good (record { node_sockets = s; name_of_service = service }), os')
  unfolding spawn check_names check_peer_id check_appended
  spawn_complete d os os' s service own created parsed instance_made =
      rw (created, parsed, check_names) (identified (n.from_str d.peer_id) refl)
    where
      spawned : Spawned Name
      spawned = record { node_sockets = s; name_of_service = service }

      identified :
          (o : Option Name)
          → n.from_str d.peer_id ≡ o
          → ◌≡◌ {A = Result (SpawnError Name) (Spawned Name) × Os}
              (check_peer_id n api d s service, os')
              (good spawned, os')
      identified none e = cc (rw (e, service_instance) at instance_made)
      identified (some peer) e =
          let appended : n.append_domain peer service ≡ some own =
            rw (e, service_instance) at instance_made in
          rw (e, check_peer_id, appended, check_appended) refl
