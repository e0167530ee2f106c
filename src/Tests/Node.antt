-- ===== src/Tests/Node.antt =====
-- Sockets and a guardian, as in src/socket.rs and src/guardian.rs.
use swarm_discovery.Prelude.{ℕ, ◌+◌, ◌≡◌, refl, true, List, [], ◌∷◌, none, some, All}
use swarm_discovery.Std.Net
use swarm_discovery.Std.HashMap
use swarm_discovery.Std.Net.{IpAddr, ip_ord, endpoint_cmp, ip_cmp}
use swarm_discovery.Std.Ord.{list_ord, nat_ord, pair_ord}
use swarm_discovery.Std.Text.{codes}
use swarm_discovery.Messages.{set_txt, remove_all, add_interface}
use swarm_discovery.Peer.{v4, v6, v4_only, has_v4}
use swarm_discovery.Sender.Current.{IsForwarded}
use swarm_discovery.Socket.{SocketApi, Sockets, good, new_sockets, send_msg}
use swarm_discovery.Socket.Packets.{is_panic, serves, send_msg_panics, new_sockets-serves}
use swarm_discovery.Guardian
use swarm_discovery.Guardian.Receivers.{handle_input-again}
use swarm_discovery.Socket.{get_interface_socket_v4}
use swarm_discovery.Std.Ord.{nat_ord}
use swarm_discovery.Guardian.Forwarding.{sent, run-sent}
use swarm_discovery.Tests.Samples.{own_message, codec_of}

-- An operating system that hands out descriptors in their order.
abbrev pub numbers : SocketApi ℕ
numbers = record {
  new = λ domain os. (good os, os + 1);
  call = λ socket call os. (good tt, os);
  from_std = λ socket os. (good socket, os);
}

abbrev pub only_v4 : Sockets
only_v4 = record { v4_socket = some 4; v6_socket = none; interfaces = [] }

send_msg_panics_example : is_panic (send_msg (codec_of own_message) only_v4 own_message v6) ≡ true
send_msg_panics_example = send_msg_panics (codec_of own_message) only_v4 own_message v6 [] refl

abbrev pub both_v4 : Sockets
both_v4 = record { v4_socket = some 5; v6_socket = none; interfaces = (1, 4) ∷ [] }

created : new_sockets numbers v4_only (1 ∷ []) 4 ≡ (good both_v4, 6)
unfolding new_sockets HashMap.insert
created = refl

new_sockets-serves_example : serves v4 both_v4 ≡ true
unfolding has_v4
new_sockets-serves_example = new_sockets-serves numbers v4_only (1 ∷ []) 4 6 both_v4 v4 created refl

abbrev guarded : Guardian.State ℕ
guarded = record { sockets = only_v4; interface_receivers = []; running = true; os = 5 }

abbrev events : List (ℕ × Guardian.Event)
events =
    (1, Guardian.message (set_txt (codes "k") none))
    ∷ (2, Guardian.message (add_interface (Net.v4 1)))
    ∷ (3, Guardian.message remove_all)
    ∷ (4, Guardian.supervision)
    ∷ []

run-sent_example :
    (sent (Guardian.run numbers guarded events).1 ≡ set_txt (codes "k") none ∷ remove_all ∷ [])
    × All IsForwarded (sent (Guardian.run numbers guarded events).1)
run-sent_example = run-sent numbers guarded events refl

abbrev with_interface : Guardian.State ℕ
with_interface = record guarded {
  sockets = record { v4_socket = some 5; v6_socket = none; interfaces = (1, 4) ∷ [] };
}

has_socket : get_interface_socket_v4 1 with_interface.sockets ≡ some 4
unfolding get_interface_socket_v4 HashMap.get nat_ord
has_socket = refl

handle_input-again_example :
    ((Guardian.handle_input numbers 9 (add_interface (Net.v4 1)) with_interface).0.sockets
      ≡ with_interface.sockets)
    × ((Guardian.handle_input numbers 9 (add_interface (Net.v4 1)) with_interface).0.os ≡ 5)
    × ((Guardian.handle_input numbers 9 (add_interface (Net.v4 1)) with_interface).1
        ≡ Guardian.start_receiver 4 ∷ [])
handle_input-again_example = handle_input-again numbers 9 1 4 with_interface has_socket
