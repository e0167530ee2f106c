-- ===== src/Node/Starting.antt =====
-- How the sender of a node starts.
use swarm_discovery.Prelude.{◌≡◌, refl, subst, false, List, [], ◌∷◌, Option}
use swarm_discovery.Std.Float.{FloatOps}
use swarm_discovery.Std.Outcome.{Outcome, ok, panic, ◌>>=◌}
use swarm_discovery.Std.Time.{Duration}
use swarm_discovery.Std.Ord.{nat_ord}
use swarm_discovery.Discoverer.{Discoverer}
use swarm_discovery.Dns.{NameApi, Message}
use swarm_discovery.Messages.{size_subscription}
use swarm_discovery.Sender.Response.{make_response}
use swarm_discovery.Sender.Machine.{
  querying, State, Effect, subscribe_size, Environment, begin_query, after, start,
}
use swarm_discovery.Sender.Traces.{Ensures}
use swarm_discovery.Node.{running_after, to_updater, sender_ref}
use swarm_discovery.Node.Rounds.{IsGoing}

module _ {Name : Type 0} (n : NameApi Name) (f : FloatOps) (service_name : Name) where
  -- How the sender starts.
  pub record Started (d : Discoverer) (st : State Name) (es : List (Effect Name)) : Type 0 where
    pub of_node : st.discoverer ≡ d
    pub current : make_response n d service_name ≡ ok st.response_msg
    pub going : IsGoing st.phase
    pub asks : st.phase ≡ querying
    pub subscribed : to_updater es ≡ size_subscription sender_ref ∷ []
    pub first_count : st.swarm_size ≡ 1
    pub patient : st.extra_delay ≡ 0
    pub timer : (delay : Outcome Duration) × (running_after es [] ≡ (delay, st.timeout_count) ∷ [])

  start-Started :
      (env : Environment Name) (d : Discoverer) → Ensures (Started d) (start n f service_name env d)
  unfolding start begin_query
  start-Started env d = made (make_response n d service_name) refl
    where
      made :
          (r : Outcome (Option (Message Name)))
          → make_response n d service_name ≡ r
          → Ensures (Started d) (
              r >>= λ response'. after (subscribe_size ∷ []) (
                ok (
                  begin_query env (record {
                    discoverer = d;
                    response_msg = response';
                    timeout_count = 0;
                    swarm_size = 1;
                    extra_delay = 0;
                    has_responded = false;
                    phase = querying;
                  }))))
      made (ok r) e = record {
        of_node = refl;
        current = e;
        going = tt;
        asks = refl;
        subscribed = refl;
        first_count = refl;
        patient = refl;
        timer = (_, refl);
      }
      made panic e = tt

  pub begun-Started :
      (env : Environment Name) (d : Discoverer) (st : State Name) (es : List (Effect Name))
      → start n f service_name env d ≡ ok (st, es)
      → Started d st es
  begun-Started env d st es h = subst (Ensures (Started d)) h (start-Started env d)
