-- ===== src/Sender/Sending.antt =====
-- How the responses of others end a cycle of the sender, and what a late timer does.
use swarm_discovery.Prelude.{ℕ, ◌≡◌, ◌≢◌, refl, false, [], ◌==◌, arith}
use swarm_discovery.Std.BtreeMap
use swarm_discovery.Std.BtreeMap.{BtreeMap}
use swarm_discovery.Std.Float.{FloatOps}
use swarm_discovery.Std.Outcome.{ok}
use swarm_discovery.Dns.{NameApi}
use swarm_discovery.Messages.{timeout}
use swarm_discovery.Peer.{Peer}
use swarm_discovery.Sender.Machine.{
  Phase, querying, responding, stopped, State, message, Environment, while_querying,
  while_responding, dispatch, step,
}

module _ {Name : Type 0} (n : NameApi Name) (f : FloatOps) (service_name : Name) where
  -- The message of a timer that is not the present one does nothing, in any phase.
  pub stale_timeout :
      (env : Environment Name) (st : State Name) (count : ℕ)
      → count ≢ st.timeout_count
      → step n f service_name st (env, message (timeout count)) ≡ ok (st, [])
  unfolding step while_querying while_responding
  stale_timeout env st count h = go st.phase
    where
      other : (count == st.timeout_count) ≡ false
      other = ground arith

      go :
          (phase : Phase)
          → dispatch n f service_name env phase (message (timeout count)) st ≡ ok (st, [])
      go querying = rw other
      go (responding mode heard) = rw other
      go stopped = refl
