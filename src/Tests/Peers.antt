-- ===== src/Tests/Peers.antt =====
-- Rounds of an updater, as in src/updater.rs.
use swarm_discovery.Prelude.{◌≡◌, refl, true, List, [], ◌∷◌, All}
use swarm_discovery.Std.BtreeMap
use swarm_discovery.Std.BtreeMap.{BtreeMap, IsOrdered}
use swarm_discovery.Std.Float.{FloatOps}
use swarm_discovery.Std.Net.{ip_ord}
use swarm_discovery.Std.Ord.{list_ord, nat_ord, pair_ord}
use swarm_discovery.Std.Outcome.{ok}
use swarm_discovery.Std.Sort.{contains}
use swarm_discovery.Std.Text.{Str, codes}
use swarm_discovery.Std.Time.{Instant}
use swarm_discovery.Messages.{UpdaterInput, peers, gc, size_subscription}
use swarm_discovery.Peer.{is_expiry}
use swarm_discovery.Tests.Names.{node_id}
use swarm_discovery.Updater
use swarm_discovery.Updater.{start_gc, subs_of}
use swarm_discovery.Updater.Sizes.{IsValid, Informs, run-Informs}
use swarm_discovery.Updater.Callbacks.{Mirrors, FoundInput, run-Mirrors}
use swarm_discovery.Updater.Expiry.{handle_input-gc, if_fresh, told_gone, stale, three_cadences}
use swarm_discovery.Tests.Samples.{floats, me}

abbrev sample : Updater.State
sample = record { table = (node_id, me) ∷ []; subscribers = (3, tt) ∷ [] }

sample-IsValid : IsValid sample
sample-IsValid = record { table_ordered = (tt, tt); subscribers_ordered = (tt, tt) }

subscribed : contains 3 (subs_of sample) ≡ true
unfolding contains nat_ord
subscribed = refl

abbrev messages : List (Instant × UpdaterInput)
messages = (9, peers ((codes "n2", me) ∷ [])) ∷ (9, size_subscription 4) ∷ (20_000_000_000, gc) ∷ []

run-Informs_example : Informs 3 1 (Updater.run floats 2_000_000_000 1 2_000_000_000 sample messages)
run-Informs_example =
    run-Informs floats 2_000_000_000 1 2_000_000_000 messages sample 3 1 sample-IsValid subscribed
      refl

messages-found : All (λ (e : Instant × UpdaterInput). FoundInput e.1) messages
unfolding is_expiry
messages-found = ((refl, tt), (tt, (tt, tt)))

run-Mirrors_example :
    Mirrors sample.table (Updater.run floats 2_000_000_000 1 2_000_000_000 sample messages)
run-Mirrors_example =
    run-Mirrors floats 2_000_000_000 1 2_000_000_000 messages sample sample-IsValid messages-found

-- The grace period of a node with a swarm of one.
abbrev thirds : FloatOps
thirds = record floats { from_secs_f32 = λ x. ok 6_000_000_000 }

grace_of : three_cadences thirds 2_000_000_000 1 1 ≡ ok 6_000_000_000
grace_of = refl

handle_input-gc_example :
    (st' : Updater.State) × (effects : List Updater.Effect) × (Updater.handle_input thirds
        2_000_000_000 1 5 20_000_000_000 sample gc
      ≡ ok (st', start_gc 5 ∷ effects))
    × (st'.subscribers ≡ sample.subscribers)
    × ((id : Str)
        → BtreeMap.get id st'.table
          ≡ if_fresh 20_000_000_000 6_000_000_000 (BtreeMap.get id sample.table))
    × ((id : Str)
        → told_gone id effects ≡ stale 20_000_000_000 6_000_000_000 (BtreeMap.get id sample.table))
handle_input-gc_example =
    handle_input-gc thirds 2_000_000_000 1 5 20_000_000_000 sample 6_000_000_000 (tt, tt) refl
      grace_of
