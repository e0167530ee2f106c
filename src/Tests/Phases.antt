-- ===== src/Tests/Phases.antt =====
-- Rounds of the sample node's sender, as in src/sender.rs.
use swarm_discovery.Prelude.{
  ◌+◌, ◌≤◌, ◌<◌, ◌*◌, ◌/◌, ◌≡◌, refl, true, List, [], ◌∷◌, none, some, arith,
}
use swarm_discovery.Std.Net.{ip_ord}
use swarm_discovery.Std.Ord.{list_ord, nat_ord, pair_ord}
use swarm_discovery.Std.Outcome.{ok}
use swarm_discovery.Std.Text.{Str, codes}
use swarm_discovery.Std.Time.{Duration, duration_limit, checked}
use swarm_discovery.Messages.{timeout, update, set_txt}
use swarm_discovery.Peer.{v4}
use swarm_discovery.Sender.Current.{run-IsCurrent}
use swarm_discovery.Sender.Delay.{
  response_delay, next_extra_delay, query_delay, respond_delay, as_u32, query_delay_bounds,
  respond_delay_bounds, cutoff,
}
use swarm_discovery.Sender.Machine.{
  State, Phase, querying, Environment, ActorInput, message, no_more_senders, run, cut_of,
}
use swarm_discovery.Sender.Response.{make_response}
use swarm_discovery.Sender.Timers.{Advances, run-Advances}
use swarm_discovery.Sender.Traces.{Ensures}
use swarm_discovery.Tests.Names.{texts, texts-ServiceNames, node_id, service}
use swarm_discovery.Tests.Samples.{floats, node, own_message, made, me-IsAnnounceable}
use swarm_discovery.Sender.Going.{GoesOn, IsReady, run-GoesOn}
use swarm_discovery.Messages.{query_v4}
use swarm_discovery.Sender.Updates.{
  IsTidy, update_peers-IsTidy, announces, after_update, update_peers_addrs,
}
use swarm_discovery.Sender.Response.{update_peers}
use swarm_discovery.Std.BtreeMap.Laws.{AllValues}
use swarm_discovery.Messages.{add_addr}
use swarm_discovery.Std.Net

update_peers-IsTidy_example :
    AllValues IsTidy (update_peers 7 (add_addr 8080 (Net.v4 3 ∷ Net.v4 1 ∷ [])) node).peers
update_peers-IsTidy_example =
    update_peers-IsTidy 7 (add_addr 8080 (Net.v4 3 ∷ Net.v4 1 ∷ [])) node
      (record { ascending = me-IsAnnounceable.ascending; ordered = me-IsAnnounceable.ordered }, tt)

update_peers_addrs_example :
    announces (Net.v4 3, 8080) (update_peers 7 (add_addr 8080 (Net.v4 3 ∷ Net.v4 1 ∷ [])) node)
    ≡ after_update
        (add_addr 8080 (Net.v4 3 ∷ Net.v4 1 ∷ []))
        (Net.v4 3, 8080)
        (announces (Net.v4 3, 8080) node)
update_peers_addrs_example =
    update_peers_addrs 7 (add_addr 8080 (Net.v4 3 ∷ Net.v4 1 ∷ [])) node (Net.v4 3, 8080) (tt, tt)

abbrev env : Environment Str
env = record { now = 10; millionth = 3; send_msg = λ msg mode. ok tt }

abbrev state_in : Phase → State Str
state_in phase = record {
  discoverer = node;
  response_msg = some own_message;
  timeout_count = 4;
  swarm_size = 9;
  extra_delay = 0;
  has_responded = true;
  phase = phase;
}

abbrev inputs : List (Environment Str × ActorInput)
inputs =
    (env, message (timeout 4))
    ∷ (env, message (update (set_txt (codes "k") none)))
    ∷ (env, message (timeout 5))
    ∷ (env, message (timeout 5))
    ∷ (env, no_more_senders)
    ∷ []

run-Advances_example : Ensures (Advances 4 5) (run texts floats service (state_in querying) inputs)
run-Advances_example = run-Advances texts floats service inputs (state_in querying) (omega arith)

run-IsCurrent_example :
    Ensures
      (λ st es. make_response texts st.discoverer service ≡ ok st.response_msg)
      (run texts floats service (state_in querying) inputs)
run-IsCurrent_example =
    run-IsCurrent texts floats service inputs (state_in querying) (tt, (tt, (tt, (tt, (tt, tt)))))
      made

extra_delay_of :
    next_extra_delay true 0 9 (cut_of texts floats service (state_in querying)) ≡ ok 400_000_000
unfolding next_extra_delay cutoff checked
extra_delay_of = refl

in_range : 2_000_000_000 + 2_000_000_000 * as_u32 9 < duration_limit
unfolding duration_limit
in_range = omega arith

query_delay_bounds_example :
    (d : Duration) × (query_delay 2_000_000_000 9 500_000 ≡ ok d)
    × (2_000_000_000 ≤ d)
    × (10 * d ≤ 10 * 2_000_000_000 + 2_000_000_000 * as_u32 9)
query_delay_bounds_example = query_delay_bounds 2_000_000_000 9 500_000 in_range (omega arith)

respond_delay_bounds_example :
    (d : Duration) × (respond_delay 100_000_000 9 2 500_000 ≡ ok d)
    × (100_000_000 ≤ d)
    × (d ≤ 100_000_000 + response_delay * as_u32 9 / 2)
respond_delay_bounds_example =
    respond_delay_bounds 100_000_000 9 2 500_000 (omega arith) (omega arith) (omega arith)

ready : IsReady texts floats service node_id texts-ServiceNames 2 (state_in querying)
unfolding cutoff
ready = record {
  small = omega arith;
  cut = refl;
  same_id = refl;
  ports = (me-IsAnnounceable.ports, tt);
}

abbrev updates : List (Environment Str × ActorInput)
updates =
    (env, message (update (add_addr 8080 (Net.v4 3 ∷ []))))
    ∷ (env, message (timeout 4))
    ∷ (env, message (update (set_txt (codes "k") none)))
    ∷ (env, message (timeout 5))
    ∷ (env, message query_v4)
    ∷ []

run-GoesOn_example :
    GoesOn texts floats service node_id texts-ServiceNames 2
      (run texts floats service (state_in querying) updates)
run-GoesOn_example =
    run-GoesOn texts floats service node_id texts-ServiceNames updates (state_in querying) 2
      (omega arith)
      (
        (λ msg mode. refl, omega arith),
        (
          (λ msg mode. refl, tt),
          ((λ msg mode. refl, tt), ((λ msg mode. refl, tt), ((λ msg mode. refl, tt), tt))),
        ),
      )
      ready
