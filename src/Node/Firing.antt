-- ===== src/Node/Firing.antt =====
-- How the message of its timer ends a phase of the sender.
use swarm_discovery.Prelude.{
  ℕ, ◌≡◌, refl, ap, true, List, [], ◌∷◌, Option, none, some, ◌==◌, arith, inl, inr,
}
use swarm_discovery.Std.Float.{FloatOps}
use swarm_discovery.Std.Ord.{nat_ord}
use swarm_discovery.Std.Outcome.{Outcome, ok, panic, ◌>>=◌, Outcome-cases}
use swarm_discovery.Dns.{NameApi, Message}
use swarm_discovery.Messages.{timeout}
use swarm_discovery.Peer.{Mode, any}
use swarm_discovery.Sender.Delay.{next_extra_delay}
use swarm_discovery.Sender.Machine.{
  querying, responding, State, Effect, send_packet, Environment, message, begin_query,
  begin_response, end_response, after, cut_of, while_querying, respond, while_responding, dispatch,
}
use swarm_discovery.Sender.Response.{make_query}
use swarm_discovery.Sender.Traces.{Ensures, packets}

module _ {Name : Type 0} where
  -- The packet of a response, if there is one.
  abbrev pub packet_of : Option (Message Name) → Mode → List (Message Name × Mode)
  packet_of none mode = []
  packet_of (some msg) mode = (msg, mode) ∷ []

  -- A round that ends the phase `querying`: the node asks, and is then about to respond.
  abbrev pub Asks : Message Name → State Name → State Name → List (Effect Name) → Type 0
  Asks query st st' es = (st'.phase ≡ responding any 0) × (packets es ≡ (query, any) ∷ [])

  -- A round that ends the phase `responding`: the node sends its response.
  abbrev pub Answers : Mode → State Name → State Name → List (Effect Name) → Type 0
  Answers mode st st' es = (st'.phase ≡ querying) × (packets es ≡ packet_of st.response_msg mode)

module _ {Name : Type 0} (n : NameApi Name) (f : FloatOps) (service_name : Name)
    (env : Environment Name) (st : State Name) where
  begin_response-Asks :
      (query : Message Name) (cut : ℕ)
      → Ensures (Asks query st) (after (send_packet query any ∷ []) (begin_response env cut any st))
  unfolding begin_response packets
  begin_response-Asks query cut =
      elim (Outcome-cases (next_extra_delay st.has_responded st.extra_delay st.swarm_size cut)) [
        | inl (extra, e) ↦ rw (e, begin_response) (refl, refl)
        | inr e ↦ rw (e, begin_response) tt
      ]

  pub querying-Asks :
      Ensures
        (Asks (make_query service_name) st)
        (dispatch n f service_name env querying (message (timeout st.timeout_count)) st)
  unfolding dispatch while_querying
  querying-Asks =
      let same : (st.timeout_count == st.timeout_count) ≡ true = ground arith in
      rw same (sent (env.send_msg (make_query service_name) any))
    where
      sent :
          (m : Outcome (Unit {0}))
          → Ensures (Asks (make_query service_name) st) (
              m >>= λ _.
              after
                (send_packet (make_query service_name) any ∷ [])
                (begin_response env (cut_of n f service_name st) any st))
      sent (ok u) = begin_response-Asks (make_query service_name) (cut_of n f service_name st)
      sent panic = tt

  respond-Answers : (mode : Mode) → Ensures (Answers mode st) (respond n f service_name env mode st)
  unfolding respond end_response begin_query packets
  respond-Answers mode = chosen st.response_msg refl
    where
      sent :
          (msg : Message Name) (m : Outcome (Unit {0}))
          → some msg ≡ st.response_msg
          → Ensures (Answers mode st) (
              m >>= λ _.
              after
                (send_packet msg mode ∷ [])
                (ok (end_response env (record st { has_responded = true }))))
      sent msg (ok u) e = (refl, ap (λ r. packet_of r mode) e)
      sent msg panic e = tt

      chosen :
          (r : Option (Message Name))
          → r ≡ st.response_msg
          → Ensures (Answers mode st) (elim r [
            | none ↦ ok (end_response env st)
            | some m ↦ env.send_msg m mode >>= λ _.
                after
                  (send_packet m mode ∷ [])
                  (ok (end_response env (record st { has_responded = true })))
          ])
      chosen none e = (refl, ap (λ r. packet_of r mode) e)
      chosen (some msg) e = sent msg (env.send_msg msg mode) e

  pub responding-Answers :
      (mode : Mode) (heard : ℕ)
      → Ensures (Answers mode st) (
          dispatch n f service_name env
            (responding mode heard)
            (message (timeout st.timeout_count))
            st)
  unfolding dispatch while_responding
  responding-Answers mode heard =
      let same : (st.timeout_count == st.timeout_count) ≡ true = ground arith in
      rw same (respond-Answers mode)
