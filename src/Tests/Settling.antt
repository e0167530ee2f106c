-- ===== src/Tests/Settling.antt =====
-- A sane node, which comes to rest and announces itself.
use swarm_discovery.Prelude.{ℕ, ◌+◌, ◌≤◌, ◌≡◌, ◌⊎◌, refl, List, [], ◌∷◌, none, arith}
use swarm_discovery.Std.BtreeMap
use swarm_discovery.Std.Ord.{list_ord, nat_ord, list_cmp}
use swarm_discovery.Std.Outcome.{ok}
use swarm_discovery.Std.Text.{Str}
use swarm_discovery.Std.Time.{Instant, duration_limit}
use swarm_discovery.Guard.{call_remove_all, make_all, of_task}
use swarm_discovery.Guard
use swarm_discovery.Guardian
use swarm_discovery.Messages.{GuardianInput, remove_all, update, size_subscription, gc}
use swarm_discovery.Sender.Delay.{cutoff}
use swarm_discovery.Sender.Machine
use swarm_discovery.Sender.Machine.{dispatch, while_querying, apply_update}
use swarm_discovery.Sender.Response.{make_response, update_peers, update_response}
use swarm_discovery.Peer.{any}
use swarm_discovery.Socket.{send_msg}
use swarm_discovery.Updater
use swarm_discovery.Updater.{grace_period}
use swarm_discovery.Node
use swarm_discovery.Node.{
  Node, Step, Reach, begin, next, guardian_round, sender_round, updater_round, started,
}
use swarm_discovery.Node.Applying.{apply_all, inputs_of}
use swarm_discovery.Node.Changing.{calls-HasApplied}
use swarm_discovery.Node.ByItself.{CanEnd, sender-CanEnd}
use swarm_discovery.Node.Calling.{with_inbox}
use swarm_discovery.Node.Progress.{NeverPanics, node-NeverPanics}
use swarm_discovery.Node.Responding.{Announces, node-Announces_again}
use swarm_discovery.Node.Resting.{IsAtRest, Settles, Goes, node-Settles}
use swarm_discovery.Node.Sane.{IsSane}
use swarm_discovery.Node.Settling.{Rounds, done, more, load, rounds-Terminate}
use swarm_discovery.Tests.Names.{texts, texts-ServiceNames, service}
use swarm_discovery.Tests.Node.{numbers, only_v4}
use swarm_discovery.Tests.Samples.{floats, node}
use swarm_discovery.Tests.System.{
  codec, env, interval, node-Built, sender_state, sender_effects, sender_started, subscribed,
  subscribes,
}

node-IsSane : IsSane texts floats service node only_v4
unfolding cutoff grace_period duration_limit
node-IsSane = record {
  names = texts-ServiceNames;
  built = node-Built;
  positive = omega arith;
  short = omega arith;
  grace = λ size known fits. (_, refl);
  on_v4 = (4, refl);
}

abbrev Reached : Node Str ℕ → Type 0
Reached s = Reach texts codec floats numbers service node only_v4 s

abbrev fresh : Node Str ℕ
fresh =
    started texts codec floats numbers service node (Guardian.start numbers 1 only_v4 6).0
      sender_state sender_effects

fresh-Reached : Reached fresh
fresh-Reached =
    begin 1 6 env sender_state sender_effects 2_469_246_924 (omega arith) interval sender_started

node-NeverPanics_example :
    NeverPanics texts codec floats numbers service node 9 3 2_469_246_924 gc fresh
node-NeverPanics_example =
    node-NeverPanics texts codec floats numbers service node only_v4 node-IsSane 9 3 2_469_246_924
      gc fresh-Reached (omega arith)

sender-CanEnd_example : CanEnd texts codec floats numbers service node only_v4 node-IsSane fresh
sender-CanEnd_example =
    sender-CanEnd texts codec floats numbers service node only_v4 node-IsSane fresh-Reached

abbrev idle : Node Str ℕ
idle = record fresh { updater = subscribed; updates = [] }

one_round : Rounds texts codec floats numbers service node fresh 1 idle
unfolding Updater.Callbacks.replay
one_round =
    more done
      (updater_round 10 (size_subscription 0) [] subscribed [] 2_469_246_924 interval refl
        subscribes)
      tt

rounds-Terminate_example :
    1 + load texts codec floats numbers service node idle
    ≤ load texts codec floats numbers service node fresh
rounds-Terminate_example =
    rounds-Terminate texts codec floats numbers service node fresh-Reached one_round

node-Settles_example :
    Settles texts codec floats numbers service node only_v4 node-IsSane fresh
    × (Goes texts codec floats numbers service node only_v4 node-IsSane fresh ⊎ IsAtRest fresh)
node-Settles_example =
    node-Settles texts codec floats numbers service node only_v4 node-IsSane fresh-Reached
      (omega arith)

node-Announces_again_example :
    Announces texts codec floats numbers service node only_v4 node-IsSane 12 7 fresh
node-Announces_again_example =
    node-Announces_again texts codec floats numbers service node only_v4 node-IsSane 12 7
      (omega arith) fresh-Reached (omega arith)

abbrev asking : Machine.State Str
asking = record sender_state { timeout_count = 1; phase = Machine.responding any 0 }

abbrev called : Node Str ℕ
called =
    with_inbox texts codec floats numbers service node only_v4 fresh
      (make_all (call_remove_all ∷ []) (of_task 3)).outbox

abbrev removed : Machine.State Str
removed = record sender_state { discoverer = record node { peers = [] }; response_msg = none }

remove_all_applied :
    dispatch texts floats service
      (record { now = 11; millionth = 0; send_msg = Node.sends codec only_v4 })
      Machine.querying
      (Machine.message (update remove_all))
      sender_state
    ≡ ok (removed, [])
unfolding dispatch while_querying apply_update update_response update_peers make_response
    BtreeMap.remove BtreeMap.get list_ord list_cmp nat_ord
remove_all_applied = refl

abbrev emptied : Node Str ℕ
emptied = record fresh { updater = subscribed; updates = []; sender = removed }

three_rounds : Rounds texts codec floats numbers service node called 3 emptied
unfolding Updater.Callbacks.replay Guard.make_all Guard.make Guard.remove_all Guardian.handle_input
    Guardian.start
three_rounds =
    more
      (more (more done (guardian_round 2 remove_all [] refl refl) tt)
        (sender_round 11 0 (update remove_all) [] removed [] (omega arith) refl remove_all_applied)
        tt)
      (updater_round 10 (size_subscription 0) [] subscribed [] 2_469_246_924 interval refl
        subscribes)
      tt

calls-HasApplied_example :
    (past : List (Instant × GuardianInput)) × (inputs_of past ≡ remove_all ∷ [])
    × (record node { peers = [] } ≡ apply_all past node)
    × (make_response texts (record node { peers = [] }) service ≡ ok none)
calls-HasApplied_example =
    calls-HasApplied texts codec floats numbers service node only_v4 (call_remove_all ∷ []) 3
      node-Built (tt, tt) fresh-Reached three_rounds (refl, refl, refl)
