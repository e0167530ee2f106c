-- ===== src/Tests/Spawned.antt =====
-- The sample node when it is set up and spawned, and its guard, as in src/lib.rs.
use swarm_discovery.Prelude.{◌≡◌, refl, not, true, List, [], ◌∷◌, ◌++◌, none, some, All}
use swarm_discovery.Std.Net
use swarm_discovery.Std.Ord.{list_ord, nat_ord}
use swarm_discovery.Std.Outcome.{ok}
use swarm_discovery.Std.Text.{Str, codes}
use swarm_discovery.Discoverer.{new, with_addrs}
use swarm_discovery.Guard.{
  DropGuard, Call, of_task, call_add, call_set_txt_attribute, call_remove_interface_v4, make_all,
  drop,
}
use swarm_discovery.Guard.Calls.{IsSendable, sent_by_all, make_all-drop}
use swarm_discovery.Messages.{remove_all, add_addr}
use swarm_discovery.Peer.{Mode, v4_only}
use swarm_discovery.Sender.Response.{service_instance, make_response, update_peers}
use swarm_discovery.Sender.Setup.{update_peers-with_addrs, set_each, set_each-with_txt_attributes}
use swarm_discovery.Sender.Sound.{IsSound, Built-IsSound}
use swarm_discovery.Socket.{Sockets, good, new_sockets}
use swarm_discovery.Socket.Packets.{is_panic, is_used, serves}
use swarm_discovery.Spawn.{Spawned, service_text, spawn}
use swarm_discovery.Spawn.Checks.{spawn_good}
use swarm_discovery.Spawn.Panics.{have_targets, make_response_panics}
use swarm_discovery.Tests.Names.{texts, node_id, service}
use swarm_discovery.Tests.Node.{numbers}
use swarm_discovery.Tests.Samples.{me, me-IsAnnounceable, node, node_peer}
use swarm_discovery.Tests.System.{node-Built, with_attributes, accepted}

abbrev only_4 : Sockets
only_4 = record { v4_socket = some 4; v6_socket = none; interfaces = [] }

abbrev spawned : Spawned Str
spawned = record { node_sockets = only_4; name_of_service = service }

spawned-node : spawn texts numbers node 4 ≡ (good spawned, 5)
unfolding spawn new_sockets
spawned-node = refl

spawn_good_example :
    (own : Str) × (texts.from_str (service_text node) ≡ some service)
    × (service_instance texts node_id service ≡ some own)
    × ((mode : Mode) → is_used v4_only mode ≡ true → serves mode only_4 ≡ true)
spawn_good_example = spawn_good texts numbers node 4 5 spawned spawned-node

Built-IsSound_example : IsSound node
Built-IsSound_example = Built-IsSound node-Built

update_peers-with_addrs_example :
    update_peers 9 (add_addr 8080 (Net.v4 3 ∷ Net.v4 1 ∷ Net.v4 3 ∷ [])) node
    ≡ with_addrs 9 8080 (Net.v4 3 ∷ Net.v4 1 ∷ Net.v4 3 ∷ []) node
update_peers-with_addrs_example =
    update_peers-with_addrs 9 8080 (Net.v4 3 ∷ Net.v4 1 ∷ Net.v4 3 ∷ []) node
      (record { ascending = me-IsAnnounceable.ascending; ordered = me-IsAnnounceable.ordered }, tt)

set_each-with_txt_attributes_example :
    set_each 5 ((codes "m", none) ∷ (codes "k", some (codes "v")) ∷ []) (new (codes "x") node_id)
    ≡ with_attributes
set_each-with_txt_attributes_example =
    set_each-with_txt_attributes 5 (codes "m") none ((codes "k", some (codes "v")) ∷ [])
      (new (codes "x") node_id) with_attributes accepted

make_response_panics_example :
    is_panic (make_response texts node service) ≡ not (have_targets texts node_id me.addrs)
make_response_panics_example =
    make_response_panics texts node service (codes "n1._x._udp.local.") me refl node_peer

abbrev guard : DropGuard
guard = record (of_task 3) { outbox = remove_all ∷ [] }

abbrev calls : List Call
calls =
    call_add 80 (Net.v4 1 ∷ [])
    ∷ call_set_txt_attribute (codes "") none
    ∷ call_set_txt_attribute (codes "k") none
    ∷ call_remove_interface_v4 1
    ∷ []

make_all-drop_example :
    ((make_all calls guard).outbox ≡ guard.outbox ++ sent_by_all calls)
    × All IsSendable (sent_by_all calls)
    × (drop (make_all calls guard)
        ≡ ok (3, record { task = none; outbox = guard.outbox ++ sent_by_all calls }))
make_all-drop_example = make_all-drop calls guard 3 refl
