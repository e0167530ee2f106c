-- ===== src/Sender/Invariant.antt =====
-- What the updates of the node keep, the whole actor keeps: the rest of it changes neither the
-- discoverer nor the response.
use swarm_discovery.Prelude.{
  ℕ, ◌+◌, ◌%◌, ◌^◌, true, List, [], ◌∷◌, Option, none, some, ◌==◌, leb, if_both, All, inl, inr,
}
use swarm_discovery.Std.BtreeMap
use swarm_discovery.Std.Float.{FloatOps}
use swarm_discovery.Std.Outcome.{Outcome, ok, panic, ◌>>=◌, Outcome-cases}
use swarm_discovery.Std.Time.{Instant}
use swarm_discovery.Std.Ord.{list_ord, nat_ord}
use swarm_discovery.Discoverer.{Discoverer}
use swarm_discovery.Dns.{NameApi, Message}
use swarm_discovery.Messages.{
  MdnsMsg, query_v4, query_v6, response, timeout, size_update, update, GuardianInput,
}
use swarm_discovery.Peer.{Mode, v4, v6, any}
use swarm_discovery.Sender.Response.{update_response, make_query}
use swarm_discovery.Sender.Delay.{next_extra_delay, as_u32}
use swarm_discovery.Sender.Traces.{Ensures}
use swarm_discovery.Sender.Machine.{
  Phase, querying, responding, stopped, State, Effect, abort_timer, send_packet, ActorInput,
  message, no_more_senders, Environment, Step, begin_query, begin_response, end_response, after,
  cut_of, apply_update, while_querying, respond, while_responding, dispatch, step, run,
}

abbrev pub AllowedMsg : (GuardianInput → Type 0) → ActorInput → Type 0
AllowedMsg Allowed (message (update input)) = Allowed input
AllowedMsg Allowed _ = Unit

abbrev pub EnsuresUpdate :
    {Name : Type 0}
    → (Discoverer → Option (Message Name) → Type 0)
    → Outcome (Discoverer × Option (Message Name))
    → Type 0
EnsuresUpdate Q (ok (d, r)) = Q d r
EnsuresUpdate Q panic = Unit

module _ {Name : Type 0} (n : NameApi Name) (f : FloatOps) (service_name : Name)
    (Q : Discoverer → Option (Message Name) → Type 0) (Allowed : GuardianInput → Type 0)
    (keep : (now : Instant) (d : Discoverer) (r : Option (Message Name)) (input : GuardianInput)
      → Allowed input
      → Q d r
      → EnsuresUpdate Q (update_response n now d service_name input)) where
  abbrev pub Holds : State Name → List (Effect Name) → Type 0
  Holds st es = Q st.discoverer st.response_msg

  update_Holds :
      (env : Environment Name) (input : GuardianInput) (st : State Name)
      → Allowed input
      → Q st.discoverer st.response_msg
      → Ensures Holds (apply_update n f service_name env input st)
  unfolding apply_update
  update_Holds env input st h q =
      updated (update_response n env.now st.discoverer service_name input)
        (keep env.now st.discoverer st.response_msg input h q)
    where
      updated :
          (r : Outcome (Discoverer × Option (Message Name)))
          → EnsuresUpdate Q r
          → Ensures Holds (r >>= λ p. ok (record st { discoverer = p.0; response_msg = p.1 }, []))
      updated (ok p) e = e
      updated panic e = tt

  begin_response-Holds :
      (env : Environment Name) (cut : ℕ) (mode : Mode) (st : State Name) (es : List (Effect Name))
      → Q st.discoverer st.response_msg
      → Ensures Holds (after es (begin_response env cut mode st))
  unfolding begin_response
  begin_response-Holds env cut mode st es q =
      elim (Outcome-cases (next_extra_delay st.has_responded st.extra_delay st.swarm_size cut)) [
        | inl (extra, e) ↦ rw (e, begin_response) q
        | inr e ↦ rw (e, begin_response) tt
      ]

  sending_Holds :
      (env : Environment Name) (msg : Message Name) (mode : Mode) (r : Step Name)
      → Ensures Holds r
      → Ensures Holds (env.send_msg msg mode >>= λ _. r)
  sending_Holds env msg mode r h = elim (Outcome-cases (env.send_msg msg mode)) [
    | inl (u, e) ↦ rw e h
    | inr e ↦ rw e tt
  ]

  while_querying-Holds :
      (env : Environment Name) (msg : MdnsMsg) (st : State Name)
      → AllowedMsg Allowed (message msg)
      → Q st.discoverer st.response_msg
      → Ensures Holds (while_querying n f service_name env msg st)
  unfolding while_querying
  while_querying-Holds env query_v4 st h q = begin_response-Holds env _ v4 st (abort_timer ∷ []) q
  while_querying-Holds env query_v6 st h q = begin_response-Holds env _ v6 st (abort_timer ∷ []) q
  while_querying-Holds env (response resp) st h q = q
  while_querying-Holds env (timeout count) st h q =
      if_both (Ensures Holds) (count == st.timeout_count)
        (sending_Holds env (make_query service_name) any _
          (begin_response-Holds env _ any st (send_packet (make_query service_name) any ∷ []) q))
        q
  while_querying-Holds env (size_update size) st h q = q
  while_querying-Holds env (update input) st h q = update_Holds env input st h q

  respond-Holds :
      (env : Environment Name) (mode : Mode) (st : State Name)
      → Q st.discoverer st.response_msg
      → Ensures Holds (respond n f service_name env mode st)
  unfolding respond end_response begin_query
  respond-Holds env mode st q = responded st.response_msg q
    where
      responded :
          (r : Option (Message Name))
          → Q st.discoverer st.response_msg
          → Ensures Holds (elim r [
            | none ↦ ok (end_response env st)
            | some msg ↦ env.send_msg msg mode >>= λ _.
                after
                  (send_packet msg mode ∷ [])
                  (ok (end_response env (record st { has_responded = true })))
          ])
      responded none q = q
      responded (some msg) q = sending_Holds env msg mode _ q

  while_responding-Holds :
      (env : Environment Name) (mode : Mode) (heard : ℕ) (msg : MdnsMsg) (st : State Name)
      → AllowedMsg Allowed (message msg)
      → Q st.discoverer st.response_msg
      → Ensures Holds (while_responding n f service_name env mode heard msg st)
  unfolding while_responding end_response begin_query
  while_responding-Holds env mode heard (response resp) st h q =
      if_both (Ensures Holds)
        (leb (cut_of n f service_name st) ((heard + as_u32 (BtreeMap.len resp)) % 2 ^ 32)) q q
  while_responding-Holds env mode heard (timeout count) st h q =
      if_both (Ensures Holds) (count == st.timeout_count) (respond-Holds env mode st q) q
  while_responding-Holds env mode heard (size_update size) st h q = q
  while_responding-Holds env mode heard (update input) st h q = update_Holds env input st h q
  while_responding-Holds env mode heard query_v4 st h q = q
  while_responding-Holds env mode heard query_v6 st h q = q

  pub dispatch-Holds :
      (env : Environment Name) (phase : Phase) (input : ActorInput) (st : State Name)
      → AllowedMsg Allowed input
      → Q st.discoverer st.response_msg
      → Ensures Holds (dispatch n f service_name env phase input st)
  unfolding dispatch
  dispatch-Holds env querying (message msg) st h q = while_querying-Holds env msg st h q
  dispatch-Holds env querying no_more_senders st h q = q
  dispatch-Holds env (responding mode heard) (message msg) st h q =
      while_responding-Holds env mode heard msg st h q
  dispatch-Holds env (responding mode heard) no_more_senders st h q = q
  dispatch-Holds env stopped (message msg) st h q = q
  dispatch-Holds env stopped no_more_senders st h q = q

  pub run-Holds :
      (inputs : List (Environment Name × ActorInput)) (st : State Name)
      → All (λ (i : Environment Name × ActorInput). AllowedMsg Allowed i.1) inputs
      → Q st.discoverer st.response_msg
      → Ensures Holds (run n f service_name st inputs)
  unfolding run step
  run-Holds [] st h q = q
  run-Holds ((env, input) ∷ inputs) st h q =
      elim (Outcome-cases (dispatch n f service_name env st.phase input st)) [
        | inl (p, e) ↦
            rw (e, run)
              (more p.1 (run n f service_name p.0 inputs)
                (run-Holds inputs p.0 h.1 (rw e at (dispatch-Holds env st.phase input st h.0 q))))
        | inr e ↦ rw (e, run) tt
      ]
    where
      more :
          (es : List (Effect Name)) (r : Step Name) → Ensures Holds r → Ensures Holds (after es r)
      more es (ok p) h = h
      more es panic h = tt
