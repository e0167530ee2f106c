-- ===== src/Sender/Progress.antt =====
-- The sender does not panic between updates of the node.
use swarm_discovery.Prelude.{
  ℕ, ◌+◌, ◌*◌, ◌%◌, ◌^◌, ◌≤◌, ◌<◌, ◌≡◌, refl, ◌∙◌, true, List, [], ◌∷◌, Option, none, some, ◌==◌,
  leb, arith, if_both, All,
}
use swarm_discovery.Std.BtreeMap
use swarm_discovery.Std.Float.{FloatOps}
use swarm_discovery.Std.Outcome.{ok, panic, ◌>>=◌}
use swarm_discovery.Std.Ord.{nat_ord}
use swarm_discovery.Dns.{NameApi, Message}
use swarm_discovery.Messages.{MdnsMsg, query_v4, query_v6, response, timeout, size_update, update}
use swarm_discovery.Peer.{Mode, v4, v6, any}
use swarm_discovery.Sender.Delay.{as_u32, response_delay, next_extra_delay_bound}
use swarm_discovery.Sender.Response.{make_query}
use swarm_discovery.Sender.Machine.{
  Phase, querying, responding, stopped, State, Effect, abort_timer, send_packet, send_peers,
  ActorInput, message, no_more_senders, Environment, Step, begin_query, begin_response,
  end_response, after, cut_of, while_querying, respond, while_responding, dispatch, step, run,
}

module _ {Name : Type 0} (n : NameApi Name) (f : FloatOps) (service_name : Name) where
  -- No panic, an extra delay of a second at most, and the cutoff `c`.
  abbrev pub Succeeds : ℕ → Step Name → Type 0
  Succeeds c (ok (st, es)) =
      (st.extra_delay ≤ 10 * response_delay) × (cut_of n f service_name st ≡ c)
  Succeeds c panic = ⊥

  abbrev pub IsNoUpdate : ActorInput → Type 0
  IsNoUpdate (message (update u)) = ⊥
  IsNoUpdate _ = Unit

  -- Sending does not panic, and the input is no update of the node.
  abbrev pub IsSmooth : Environment Name × ActorInput → Type 0
  IsSmooth (env, input) =
      ((msg : Message Name) (mode : Mode) → env.send_msg msg mode ≡ ok tt) × IsNoUpdate input

  begin_response-Succeeds :
      (env : Environment Name) (mode : Mode) (st : State Name) (effects : List (Effect Name))
      → st.extra_delay ≤ 10 * response_delay
      → 0 < cut_of n f service_name st
      → Succeeds
          (cut_of n f service_name st)
          (after effects (begin_response env (cut_of n f service_name st) mode st))
  unfolding begin_response
  begin_response-Succeeds env mode st effects small positive =
      let (d, e, b) =
        next_extra_delay_bound st.has_responded st.extra_delay st.swarm_size
          (cut_of n f service_name st) small positive in
      rw (e, begin_response) (b, refl)

  with_effects :
      {c c' : ℕ} (es : List (Effect Name)) (r : Step Name)
      → Succeeds c' r
      → c' ≡ c
      → Succeeds c (after es r)
  with_effects es (ok (st, more)) h e = (h.0, h.1 ∙ e)
  with_effects es panic h e = absurd h

  module _ (env : Environment Name)
      (sends : (msg : Message Name) (mode : Mode) → env.send_msg msg mode ≡ ok tt) (st : State Name)
      (small : st.extra_delay ≤ 10 * response_delay)
      (positive : 0 < cut_of n f service_name st) where
    sending-Succeeds :
        (msg : Message Name) (mode : Mode) (r : Step Name)
        → Succeeds (cut_of n f service_name st) r
        → Succeeds (cut_of n f service_name st) (env.send_msg msg mode >>= λ _. r)
    sending-Succeeds msg mode r h = rw (sends msg mode) h

    while_querying-Succeeds :
        (msg : MdnsMsg)
        → IsNoUpdate (message msg)
        → Succeeds (cut_of n f service_name st) (while_querying n f service_name env msg st)
    unfolding while_querying
    while_querying-Succeeds query_v4 h =
        begin_response-Succeeds env v4 st (abort_timer ∷ []) small positive
    while_querying-Succeeds query_v6 h =
        begin_response-Succeeds env v6 st (abort_timer ∷ []) small positive
    while_querying-Succeeds (response resp) h = (small, refl)
    while_querying-Succeeds (timeout count) h =
        if_both (Succeeds (cut_of n f service_name st)) (count == st.timeout_count)
          (sending-Succeeds (make_query service_name) any _ (
            begin_response-Succeeds env any st (send_packet (make_query service_name) any ∷ [])
              small positive))
          (small, refl)
    while_querying-Succeeds (size_update size) h = (small, refl)
    while_querying-Succeeds (update input) h = absurd h

    respond-Succeeds :
        (mode : Mode) → Succeeds (cut_of n f service_name st) (respond n f service_name env mode st)
    unfolding respond end_response begin_query
    respond-Succeeds mode = chosen st.response_msg
      where
        chosen :
            (r : Option (Message Name))
            → Succeeds (cut_of n f service_name st) (elim r [
              | none ↦ ok (end_response env st)
              | some m ↦ env.send_msg m mode >>= λ _.
                  after
                    (send_packet m mode ∷ [])
                    (ok (end_response env (record st { has_responded = true })))
            ])
        chosen none = (small, refl)
        chosen (some m) = sending-Succeeds m mode _ (small, refl)

    while_responding-Succeeds :
        (mode : Mode) (heard : ℕ) (msg : MdnsMsg)
        → IsNoUpdate (message msg)
        → Succeeds
            (cut_of n f service_name st)
            (while_responding n f service_name env mode heard msg st)
    unfolding while_responding end_response begin_query
    while_responding-Succeeds mode heard query_v4 h = (small, refl)
    while_responding-Succeeds mode heard query_v6 h = (small, refl)
    while_responding-Succeeds mode heard (response resp) h =
        let finished : Succeeds (cut_of n f service_name st)
            (after (send_peers resp ∷ abort_timer ∷ []) (ok (end_response env st))) =
          (small, refl) in
        let heard' = (heard + as_u32 (BtreeMap.len resp)) % 2 ^ 32 in
        let waiting : Succeeds (cut_of n f service_name st)
            (ok (record st { phase = responding mode heard' }, send_peers resp ∷ [])) =
          (small, refl) in
        if_both (Succeeds (cut_of n f service_name st)) (leb (cut_of n f service_name st) heard')
          finished waiting
    while_responding-Succeeds mode heard (timeout count) h =
        if_both (Succeeds (cut_of n f service_name st)) (count == st.timeout_count)
          (respond-Succeeds mode) (small, refl)
    while_responding-Succeeds mode heard (size_update size) h = (small, refl)
    while_responding-Succeeds mode heard (update input) h = absurd h

    pub dispatch-Succeeds :
        (phase : Phase) (input : ActorInput)
        → IsNoUpdate input
        → Succeeds (cut_of n f service_name st) (dispatch n f service_name env phase input st)
    unfolding dispatch
    dispatch-Succeeds querying (message msg) h = while_querying-Succeeds msg h
    dispatch-Succeeds querying no_more_senders h = (small, refl)
    dispatch-Succeeds (responding mode heard) (message msg) h =
        while_responding-Succeeds mode heard msg h
    dispatch-Succeeds (responding mode heard) no_more_senders h = (small, refl)
    dispatch-Succeeds stopped input h = (small, refl)

  -- From a state whose extra delay is a second at most and whose cutoff is positive, the sender goes
  -- through any run without a panic, as long as sending does not panic and no update of the node comes
  -- in; the extra delay at the end is a second at most, and the cutoff the same.
  pub run-Succeeds :
      (inputs : List (Environment Name × ActorInput)) (st : State Name)
      → st.extra_delay ≤ 10 * response_delay
      → 0 < cut_of n f service_name st
      → All IsSmooth inputs
      → Succeeds (cut_of n f service_name st) (run n f service_name st inputs)
  unfolding run step
  run-Succeeds [] st small positive h = (small, refl)
  run-Succeeds ((env, input) ∷ inputs) st small positive h =
      go_on (dispatch n f service_name env st.phase input st) (λ st'. run-Succeeds inputs st')
        (dispatch-Succeeds env h.0.0 st small positive st.phase input h.0.1)
    where
      go_on :
          (r : Step Name)
          → ((st' : State Name)
              → st'.extra_delay ≤ 10 * response_delay
              → 0 < cut_of n f service_name st'
              → All IsSmooth inputs
              → Succeeds (cut_of n f service_name st') (run n f service_name st' inputs))
          → Succeeds (cut_of n f service_name st) r
          → Succeeds
              (cut_of n f service_name st)
              (r >>= λ p. after p.1 (run n f service_name p.0 inputs))
      go_on (ok (st', es)) later (b, c) =
          with_effects es (run n f service_name st' inputs)
            (later st' b (omega (arith, c, positive)) h.1) c
      go_on panic later e = absurd e
