-- ===== src/Tests/Changes.antt =====
-- A run of the test test_change_addresses of src/lib.rs.
use swarm_discovery.Prelude.{ℕ, ◌≡◌, refl, false, List, [], ◌∷◌, ◌++◌, some, arith}
use swarm_discovery.Std.BtreeMap
use swarm_discovery.Std.Net
use swarm_discovery.Std.Ord.{list_ord, nat_ord, list_cmp, pair_ord}
use swarm_discovery.Std.Net.{ip_ord}
use swarm_discovery.Std.Outcome.{ok}
use swarm_discovery.Std.Sort.{sort_unstable, dedup}
use swarm_discovery.Std.Text.{Str}
use swarm_discovery.Std.Time.{checked}
use swarm_discovery.ChangeAddresses.{
  peer_id1, peer_id1-IsUtf8, discoverer1, changes, initial_addrs, updated_addrs, peer_with,
  initial_peer, updated_peer, change_addresses,
}
use swarm_discovery.Discoverer.{
  Discoverer, new, with_addrs, with_multicast_interfaces_v4, with_cadence, with_response_rate,
  update_me,
}
use swarm_discovery.Dns.{Codec, Message}
use swarm_discovery.Guard
use swarm_discovery.Guard.{make_all, of_task}
use swarm_discovery.Guardian
use swarm_discovery.Messages.{add_addr, remove_port, response, update, size_subscription}
use swarm_discovery.Peer.{Peer}
use swarm_discovery.Receiver.{handle_msg}
use swarm_discovery.Sender.Delay.{query_delay}
use swarm_discovery.Sender.Machine.{
  State, Effect, querying, subscribe_size, start_timer, start, begin_query, dispatch,
  while_querying, apply_update, message,
}
use swarm_discovery.Sender.Response.{
  push_each, make_response, update_peers, update_response, updated_response,
}
use swarm_discovery.Updater
use swarm_discovery.Updater.{gc_interval}
use swarm_discovery.Wire.Names.{ServiceNames}
use swarm_discovery.Wire.RoundTrip.{
  announcement, heard, handle_msg-make_response, make_response-announcement,
}
use swarm_discovery.Node.{
  Node, Reach, begin, guardian_round, sender_round, updater_round, started, sends,
}
use swarm_discovery.Node.Calling.{with_inbox}
use swarm_discovery.Node.Settling.{Rounds, done, more}
use swarm_discovery.Tests.Discovery.{other, quiet-Reached, met, meets}
use swarm_discovery.Tests.Names.{texts, texts_lem, service}
use swarm_discovery.Tests.Node.{numbers, only_v4}
use swarm_discovery.Tests.Samples.{floats}
use swarm_discovery.Tests.System.{env, subscribed}

names : ServiceNames texts peer_id1 service
names = texts_lem peer_id1 (ground arith)

abbrev announced : Peer → Message Str
announced p = announcement texts peer_id1 service names p

abbrev first : Message Str
first = announced (peer_with initial_addrs 0)

abbrev last : Message Str
last = announced (peer_with updated_addrs 0)

-- The first packet is empty.
abbrev codec : Codec Str
codec = record {
  from_vec = λ bytes. elim bytes [ [] ↦ some first | _ ∷ _ ↦ some last ];
  to_vec = λ m. some [];
}

abbrev added : Discoverer
added = update_peers 11 (add_addr 9000 (Net.v6 1 ∷ [])) (discoverer1 0)

abbrev changed : Discoverer
changed = update_peers 12 (remove_port 8000) added

added_peer :
    BtreeMap.get added.peer_id added.peers ≡ some (peer_with (initial_addrs ++ updated_addrs) 0)
unfolding discoverer1 new with_addrs with_multicast_interfaces_v4 with_cadence with_response_rate
    update_me BtreeMap.get BtreeMap.insert list_ord list_cmp nat_ord pair_ord ip_ord update_peers
    sort_unstable dedup push_each
added_peer = refl

made_first : make_response texts (discoverer1 0) service ≡ ok (some first)
unfolding discoverer1 new with_addrs with_multicast_interfaces_v4 with_cadence with_response_rate
    update_me
made_first =
    make_response-announcement texts peer_id1 service names (discoverer1 0)
      (peer_with initial_addrs 0) refl (initial_peer 0) (omega arith, tt)

made_added :
    make_response texts added service
    ≡ ok (some (announced (peer_with (initial_addrs ++ updated_addrs) 0)))
unfolding discoverer1 new with_addrs with_multicast_interfaces_v4 with_cadence with_response_rate
    update_me update_peers
made_added =
    make_response-announcement texts peer_id1 service names added
      (peer_with (initial_addrs ++ updated_addrs) 0) refl added_peer
      (omega arith, (omega arith, tt))

made_last : make_response texts changed service ≡ ok (some last)
unfolding discoverer1 new with_addrs with_multicast_interfaces_v4 with_cadence with_response_rate
    update_me update_peers BtreeMap.get list_ord list_cmp nat_ord BtreeMap.insert
made_last =
    make_response-announcement texts peer_id1 service names changed (peer_with updated_addrs 0) refl
      (updated_peer 0 11 12) (omega arith, tt)

abbrev sender_with : Discoverer → Message Str → State Str
sender_with d msg = record {
  discoverer = d;
  response_msg = some msg;
  timeout_count = 0;
  swarm_size = 1;
  extra_delay = 0;
  has_responded = false;
  phase = querying;
}

abbrev effects : List (Effect Str)
effects = subscribe_size ∷ start_timer (query_delay (discoverer1 0).tau 1 env.millionth) 0 ∷ []

begins :
    start texts floats service env (discoverer1 0) ≡ ok (sender_with (discoverer1 0) first, effects)
unfolding start begin_query
begins = rw made_first refl

abbrev node1 : Node Str ℕ
node1 =
    started texts codec floats numbers service (discoverer1 0)
      (Guardian.start numbers 1 only_v4 6).0 (sender_with (discoverer1 0) first) effects

abbrev Reached : Node Str ℕ → Type 0
Reached s = Reach texts codec floats numbers service (discoverer1 0) only_v4 s

interval1 : gc_interval (discoverer1 0).tau ≡ ok 1_234_623_462
unfolding discoverer1 new with_addrs with_multicast_interfaces_v4 with_cadence with_response_rate
    update_me gc_interval checked
interval1 = refl

node1-Reached : Reached node1
node1-Reached =
    begin 1 6 env (sender_with (discoverer1 0) first) effects 1_234_623_462 (omega arith) interval1
      begins

abbrev called : Node Str ℕ
called =
    with_inbox texts codec floats numbers service (discoverer1 0) only_v4 node1
      (make_all changes (of_task 3)).outbox

abbrev handled : Node Str ℕ
handled = record node1 { sender = sender_with changed last; updater = subscribed; updates = [] }

adds :
    dispatch texts floats service
      (record { now = 11; millionth = 0; send_msg = sends codec only_v4 })
      querying
      (message (update (add_addr 9000 (Net.v6 1 ∷ []))))
      (sender_with (discoverer1 0) first)
    ≡ ok (sender_with added (announced (peer_with (initial_addrs ++ updated_addrs) 0)), [])
unfolding dispatch while_querying apply_update update_response updated_response
adds = rw made_added refl

removes :
    dispatch texts floats service
      (record { now = 12; millionth = 0; send_msg = sends codec only_v4 })
      querying
      (message (update (remove_port 8000)))
      (sender_with added (announced (peer_with (initial_addrs ++ updated_addrs) 0)))
    ≡ ok (sender_with changed last, [])
unfolding dispatch while_querying apply_update update_response updated_response
removes = rw made_last refl

handles : Rounds texts codec floats numbers service (discoverer1 0) called 5 handled
unfolding Updater.Callbacks.replay Guard.make_all Guard.make Guard.add Guard.remove_port
    Guardian.handle_input Guardian.start Updater.handle_input BtreeMap.insert
handles =
    more
      (more
        (more
          (more (more done (guardian_round 2 (add_addr 9000 (Net.v6 1 ∷ [])) _ refl refl) tt)
            (guardian_round 3 (remove_port 8000) [] refl refl) tt)
          (sender_round 11 0 (update (add_addr 9000 (Net.v6 1 ∷ []))) _ _ [] (omega arith) refl
            adds)
          tt)
        (sender_round 12 0 (update (remove_port 8000)) [] _ [] (omega arith) refl removes) tt)
      (updater_round 13 (size_subscription 0) [] subscribed [] 1_234_623_462 interval1 refl refl) tt

-- What the second node makes of the two packets.
heard_first :
    handle_msg texts codec 20 [] service (Net.v4 7)
    ≡ ok (some (response (heard peer_id1 20 (peer_with initial_addrs 0))))
unfolding discoverer1 new with_addrs with_multicast_interfaces_v4 with_cadence with_response_rate
    update_me
heard_first =
    handle_msg-make_response texts peer_id1 service names codec 20 [] (Net.v4 7) (discoverer1 0)
      (peer_with initial_addrs 0) first peer_id1-IsUtf8 refl (initial_peer 0)
      (record { ascending = (tt, tt); ports = (omega arith, tt); plain = tt; ordered = tt })
      made_first refl

heard_last :
    handle_msg texts codec 30 (0 ∷ []) service (Net.v4 8)
    ≡ ok (some (response (heard peer_id1 30 (peer_with updated_addrs 0))))
unfolding discoverer1 new with_addrs with_multicast_interfaces_v4 with_cadence with_response_rate
    update_me update_peers
heard_last =
    handle_msg-make_response texts peer_id1 service names codec 30 (0 ∷ []) (Net.v4 8) changed
      (peer_with updated_addrs 0) last peer_id1-IsUtf8 refl (updated_peer 0 11 12)
      (record { ascending = (tt, tt); ports = (omega arith, tt); plain = tt; ordered = tt })
      made_last refl

change_addresses_example :
    (BtreeMap.get peer_id1 (met codec peer_id1 (Net.v4 (Net.ipv4_new 127 0 0 1), 8000) [] [] 20).app
      ≡ some (peer_with initial_addrs 20))
    × (BtreeMap.get peer_id1 (met codec peer_id1 (Net.v6 1, 9000) [] [] 30).app
        ≡ some (peer_with updated_addrs 30))
change_addresses_example =
    change_addresses texts floats service codec numbers other only_v4 codec numbers only_v4 names 0
      3 20 30 first last [] (0 ∷ []) (Net.v4 7) (Net.v4 8)
      (response (heard peer_id1 20 (peer_with initial_addrs 0)))
      (response (heard peer_id1 30 (peer_with updated_addrs 0))) node1-Reached refl refl refl refl
      (quiet-Reached codec) tt heard_first
      (meets codec peer_id1 (Net.v4 (Net.ipv4_new 127 0 0 1), 8000) [] [] 20) (refl, refl, refl)
      handles (refl, refl, refl) refl refl (quiet-Reached codec) tt heard_last
      (meets codec peer_id1 (Net.v6 1, 9000) [] [] 30) (refl, refl, refl)
