-- ===== src/Tests/Programs.antt =====
-- Runs of the examples, as in examples/local.rs and examples/multi_interface.rs.
use swarm_discovery.Prelude.{
  arith, ℕ, ◌+◌, ◌≡◌, refl, Bool, true, false, List, [], ◌∷◌, none, some, Option,
}
use swarm_discovery.Std.HashMap
use swarm_discovery.Std.HashMap.{HashMap}
use swarm_discovery.Std.HashSet.{from_list, difference}
use swarm_discovery.Std.Net.{IpAddr, v4, v6}
use swarm_discovery.Std.Ord.{nat_ord}
use swarm_discovery.Std.Sort
use swarm_discovery.Std.Time.{Instant}
use swarm_discovery.Examples.{Interface, monitor_all, monitor, ipv4_of, add_each, remove_each}
use swarm_discovery.Examples.Interfaces.{last_listed, monitor_all-run}
use swarm_discovery.Examples.PeerSet.{Agrees, run-Agrees}
use swarm_discovery.Guard.{of_task, add_interface_v4, remove_interface_v4}
use swarm_discovery.Guardian
use swarm_discovery.Guardian.Interfaces.{events_of, inputs_of, Works, Has}
use swarm_discovery.Messages.{
  GuardianInput, UpdaterInput, peers, gc, size_subscription, add_interface, remove_interface,
}
use swarm_discovery.Peer.{is_expiry}
use swarm_discovery.Socket.{socket_v4}
use swarm_discovery.Updater.{run, initial}
use swarm_discovery.Tests.Node.{numbers, both_v4}
use swarm_discovery.Tests.Samples.{floats, me}
use swarm_discovery.Tests.Names.{node_id}

abbrev at : IpAddr → Bool → Interface
at ip is_loopback = record { ip = ip; is_loopback = is_loopback }

-- Interface 2 comes up while 1 and a loopback are there, then a listing fails, then 1 goes down.
abbrev listings : List (Option (List Interface))
listings =
    some (at (v4 1) false ∷ at (v4 127) true ∷ at (v6 5) false ∷ at (v4 2) false ∷ [])
    ∷ none
    ∷ some (at (v4 2) false ∷ [])
    ∷ []

abbrev guard_outbox : List GuardianInput
guard_outbox = (monitor_all listings (from_list (1 ∷ []) HashMap.empty, of_task 3)).1.outbox

abbrev sent_inputs : List (ℕ × GuardianInput)
sent_inputs = (11, add_interface (v4 2)) ∷ (12, remove_interface (v4 1)) ∷ []

sent_by_monitor : inputs_of sent_inputs ≡ guard_outbox
unfolding monitor_all monitor ipv4_of from_list difference add_each remove_each add_interface_v4
    remove_interface_v4 HashMap.get HashMap.insert nat_ord
sent_by_monitor = refl

numbers-Works : Works numbers
unfolding socket_v4
numbers-Works = λ addr os. (os, os + 1, refl)

abbrev guarded : Guardian.State ℕ
guarded = record { sockets = both_v4; interface_receivers = (v4 1, 2) ∷ []; running = true; os = 6 }

guarded-Has : Has numbers (from_list (1 ∷ []) HashMap.empty) both_v4
unfolding from_list HashMap.insert HashMap.get
guarded-Has = λ addr. ground arith

monitor_all-run_example :
    HashMap.contains_key 2
      (Guardian.run numbers guarded (events_of sent_inputs)).0.sockets.interfaces
    ≡ Sort.contains 2 (last_listed listings (1 ∷ []))
monitor_all-run_example =
    monitor_all-run numbers listings (1 ∷ []) 3 sent_inputs guarded sent_by_monitor numbers-Works
      refl guarded-Has 2

abbrev messages : List (Instant × UpdaterInput)
messages =
    (1, size_subscription 0)
    ∷ (7, peers ((node_id, me) ∷ (120 ∷ [], me) ∷ []))
    ∷ (9_000_000_000, gc)
    ∷ []

me_found : is_expiry me ≡ false
unfolding is_expiry
me_found = refl

run-Agrees_example : Agrees node_id (run floats 2_000_000_000 1 7 initial messages)
run-Agrees_example =
    run-Agrees floats 2_000_000_000 1 7 messages node_id
      (tt, ((me_found, (me_found, tt)), (tt, tt)))
