-- ===== src/Sender/Current.antt =====
-- The response that the sender keeps is that of the present state of the node.
use swarm_discovery.Prelude.{◌≡◌, refl, sym, List, Option, All, Option-cases, inl, inr}
use swarm_discovery.Std.BtreeMap
use swarm_discovery.Std.Float.{FloatOps}
use swarm_discovery.Std.Outcome.{Outcome, ok, panic, ◌>>=◌}
use swarm_discovery.Std.Time.{Instant}
use swarm_discovery.Std.Ord.{list_ord, nat_ord}
use swarm_discovery.Discoverer.{Discoverer}
use swarm_discovery.Dns.{NameApi, Message}
use swarm_discovery.Messages.{
  GuardianInput, remove_all, remove_port, remove_addr, add_addr, set_txt, remove_txt, add_interface,
  remove_interface,
}
use swarm_discovery.Sender.Response.{update_response, updated_response, update_peers, make_response}
use swarm_discovery.Sender.Traces.{Ensures}
use swarm_discovery.Sender.Invariant.{AllowedMsg, EnsuresUpdate, run-Holds}
use swarm_discovery.Sender.Machine.{State, ActorInput, Environment, run}

-- An update of the node itself, not of its interfaces: what the guardian hands on to the sender.
abbrev pub IsForwarded : GuardianInput → Type 0
IsForwarded (add_interface addr) = ⊥
IsForwarded (remove_interface addr) = ⊥
IsForwarded _ = Unit

module _ {Name : Type 0} (n : NameApi Name) (f : FloatOps) (service_name : Name) where
  -- The response is what `make_response` gives for the discoverer.
  abbrev pub IsCurrent : Discoverer → Option (Message Name) → Type 0
  IsCurrent d r = make_response n d service_name ≡ ok r

  pub updated_response_lem :
      (input : GuardianInput) (d : Discoverer)
      → IsForwarded input
      → updated_response n input d service_name ≡ make_response n d service_name
  unfolding updated_response make_response
  updated_response_lem remove_all d h = refl
  updated_response_lem (remove_port port) d h = refl
  updated_response_lem (remove_addr addr) d h = refl
  updated_response_lem (add_addr port addrs) d h = refl
  updated_response_lem (set_txt key value) d h = refl
  updated_response_lem (remove_txt key) d h = elim (Option-cases (BtreeMap.get d.peer_id d.peers)) [
    | inl e ↦ rw (e, updated_response, make_response)
    | inr (me, e) ↦ rw (e, updated_response)
  ]
  updated_response_lem (add_interface addr) d h = absurd h
  updated_response_lem (remove_interface addr) d h = absurd h

  update_response-IsCurrent :
      (now : Instant) (d : Discoverer) (r : Option (Message Name)) (input : GuardianInput)
      → IsForwarded input
      → IsCurrent d r
      → EnsuresUpdate IsCurrent (update_response n now d service_name input)
  unfolding update_response
  update_response-IsCurrent now d r input h c =
      made (updated_response n input (update_peers now input d) service_name)
        (sym (updated_response_lem input (update_peers now input d) h))
    where
      made :
          (m : Outcome (Option (Message Name)))
          → make_response n (update_peers now input d) service_name ≡ m
          → EnsuresUpdate IsCurrent (m >>= λ response'. ok (update_peers now input d, response'))
      made (ok r') e = e
      made panic e = tt

  -- If the response that the sender keeps is the one that `make_response` makes for the state of
  -- the node, then it is so again after any run that does not panic, as long as no change of the
  -- interfaces is handed on to the sender.
  pub run-IsCurrent :
      (inputs : List (Environment Name × ActorInput)) (st : State Name)
      → All (λ (i : Environment Name × ActorInput). AllowedMsg IsForwarded i.1) inputs
      → make_response n st.discoverer service_name ≡ ok st.response_msg
      → Ensures
          (λ st' es. make_response n st'.discoverer service_name ≡ ok st'.response_msg)
          (run n f service_name st inputs)
  run-IsCurrent inputs st h c =
      run-Holds n f service_name IsCurrent IsForwarded update_response-IsCurrent inputs st h c
