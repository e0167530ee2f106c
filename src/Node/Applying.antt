-- ===== src/Node/Applying.antt =====
-- The updates of its guard that a node takes in, and in which order.
use swarm_discovery.Prelude.{
  ◌≡◌, refl, ap, List, [], ◌∷◌, ◌++◌, Option, map, ◌==◌, Bool-cases, inl, inr,
}
use swarm_discovery.Std.Float.{FloatOps}
use swarm_discovery.Std.Ord.{nat_ord}
use swarm_discovery.Std.Outcome.{Outcome, ok, panic, ◌>>=◌}
use swarm_discovery.Std.Time.{Instant}
use swarm_discovery.Discoverer.{Discoverer}
use swarm_discovery.Dns.{NameApi, Message}
use swarm_discovery.Guardian.Forwarding.{own}
use swarm_discovery.Messages.{
  GuardianInput, MdnsMsg, query_v4, query_v6, response, timeout, size_update, update,
}
use swarm_discovery.Sender.Invariant.{AllowedMsg, dispatch-Holds}
use swarm_discovery.Sender.Machine
use swarm_discovery.Sender.Machine.{
  Phase, querying, responding, stopped, State, Environment, message, apply_update, while_querying,
  while_responding, dispatch,
}
use swarm_discovery.Sender.Response.{update_peers, update_response, updated_response}
use swarm_discovery.Sender.Traces.{Ensures}
use swarm_discovery.Updater
use swarm_discovery.Node.Rounds.{IsGoing}
use swarm_discovery.Node.{Node, sizes_sent, sender_ref}

-- The updates of the node that wait for the sender, and those that the guardian will hand to it.
abbrev pub posted : List MdnsMsg → List GuardianInput
posted [] = []
posted (update input ∷ ms) = input ∷ posted ms
posted (_ ∷ ms) = posted ms

abbrev pub own_all : List GuardianInput → List GuardianInput
own_all [] = []
own_all (input ∷ inputs) = own input ++ own_all inputs

abbrev pub waiting : {Name Os : Type 0} → Node Name Os → List GuardianInput
waiting s = posted s.mailbox ++ own_all s.inbox

-- Updates, each at the time at which it is applied, in their order.
abbrev pub apply_all : List (Instant × GuardianInput) → Discoverer → Discoverer
apply_all [] d = d
apply_all ((now, input) ∷ rest) d = apply_all rest (update_peers now input d)

abbrev pub inputs_of : List (Instant × GuardianInput) → List GuardianInput
inputs_of [] = []
inputs_of ((now, input) ∷ rest) = input ∷ inputs_of rest

pub posted-append : (xs ys : List MdnsMsg) → posted (xs ++ ys) ≡ posted xs ++ posted ys
posted-append [] ys = refl
posted-append (update input ∷ xs) ys = ap (λ l. input ∷ l) (posted-append xs ys)
posted-append (query_v4 ∷ xs) ys = posted-append xs ys
posted-append (query_v6 ∷ xs) ys = posted-append xs ys
posted-append (response m ∷ xs) ys = posted-append xs ys
posted-append (timeout c ∷ xs) ys = posted-append xs ys
posted-append (size_update k ∷ xs) ys = posted-append xs ys

pub posted-update : (inputs : List GuardianInput) → posted (map update inputs) ≡ inputs
posted-update [] = refl
posted-update (input ∷ inputs) = ap (λ l. input ∷ l) (posted-update inputs)

pub posted-sizes_sent : (es : List Updater.Effect) → posted (sizes_sent es) ≡ []
posted-sizes_sent [] = refl
posted-sizes_sent (Updater.callback id p ∷ es) = posted-sizes_sent es
posted-sizes_sent (Updater.send sub size ∷ es) = elim (Bool-cases (sub == sender_ref)) [
  | inl e ↦ rw e (posted-sizes_sent es)
  | inr e ↦ rw e (posted-sizes_sent es)
]
posted-sizes_sent (Updater.start_gc t ∷ es) = posted-sizes_sent es

pub apply_all-append :
    (xs ys : List (Instant × GuardianInput)) (d : Discoverer)
    → apply_all (xs ++ ys) d ≡ apply_all ys (apply_all xs d)
apply_all-append [] ys d = refl
apply_all-append ((now, input) ∷ xs) ys d = apply_all-append xs ys (update_peers now input d)

pub inputs_of-append :
    (xs ys : List (Instant × GuardianInput)) → inputs_of (xs ++ ys) ≡ inputs_of xs ++ inputs_of ys
inputs_of-append [] ys = refl
inputs_of-append ((now, input) ∷ xs) ys = ap (λ l. input ∷ l) (inputs_of-append xs ys)

-- What a message makes of the node, at a time.
abbrev pub applied : Instant → MdnsMsg → List (Instant × GuardianInput)
applied now (update input) = (now, input) ∷ []
applied now _ = []

module _ {Name : Type 0} (n : NameApi Name) (f : FloatOps) (service_name : Name) where
  abbrev pub Applies : Environment Name → MdnsMsg → State Name → Machine.Step Name → Type 0
  Applies env msg st =
      Ensures (λ st' es. st'.discoverer ≡ apply_all (applied env.now msg) st.discoverer)

  unchanged :
      (env : Environment Name) (phase : Phase) (msg : MdnsMsg) (st : State Name)
      → AllowedMsg (λ _. ⊥) (message msg)
      → Ensures
          (λ st' es. st'.discoverer ≡ st.discoverer)
          (dispatch n f service_name env phase (message msg) st)
  unchanged env phase msg st h =
      dispatch-Holds n f service_name (λ d r. d ≡ st.discoverer) (λ _. ⊥)
        (λ now d r input b q. absurd b) env phase (message msg) st h refl

  apply_update-Applies :
      (env : Environment Name) (input : GuardianInput) (st : State Name)
      → Applies env (update input) st (apply_update n f service_name env input st)
  unfolding apply_update update_response
  apply_update-Applies env input st =
      made (updated_response n input (update_peers env.now input st.discoverer) service_name)
    where
      made :
          (m : Outcome (Option (Message Name)))
          → Applies env (update input) st (
              ◌>>=◌ {B = Discoverer × Option (Message Name)} m
                (λ r'. ok (update_peers env.now input st.discoverer, r'))
              >>= λ p. ok (record st { discoverer = p.0; response_msg = p.1 }, []))
      made (ok r) = refl
      made panic = tt

  pub dispatch-Applies :
      (env : Environment Name) (phase : Phase) (msg : MdnsMsg) (st : State Name)
      → IsGoing phase
      → Applies env msg st (dispatch n f service_name env phase (message msg) st)
  unfolding dispatch while_querying while_responding
  dispatch-Applies env querying (update input) st g = apply_update-Applies env input st
  dispatch-Applies env (responding mode heard) (update input) st g =
      apply_update-Applies env input st
  dispatch-Applies env stopped (update input) st g = absurd g
  dispatch-Applies env phase query_v4 st g = unchanged env phase query_v4 st tt
  dispatch-Applies env phase query_v6 st g = unchanged env phase query_v6 st tt
  dispatch-Applies env phase (response m) st g = unchanged env phase (response m) st tt
  dispatch-Applies env phase (timeout c) st g = unchanged env phase (timeout c) st tt
  dispatch-Applies env phase (size_update k) st g = unchanged env phase (size_update k) st tt
