-- ===== src/Sender/Timely.antt =====
-- The timers of the sender: the computation of their delays does not panic.
use swarm_discovery.Prelude.{
  ℕ, ◌+◌, ◌*◌, ◌%◌, ◌^◌, ◌≤◌, ◌<◌, ◌≡◌, refl, true, false, List, [], ◌∷◌, Option, none, some, ◌==◌,
  leb, arith, if_both, All, inl, inr,
}
use swarm_discovery.Std.BtreeMap
use swarm_discovery.Std.Float.{FloatOps}
use swarm_discovery.Std.Outcome.{Outcome, ok, panic, ◌>>=◌, Outcome-cases}
use swarm_discovery.Std.Ord.{nat_ord}
use swarm_discovery.Std.Time.{Duration, duration_limit}
use swarm_discovery.Discoverer.{Discoverer}
use swarm_discovery.Dns.{NameApi, Message}
use swarm_discovery.Messages.{
  MdnsMsg, query_v4, query_v6, response, timeout, size_update, update, GuardianInput,
}
use swarm_discovery.Peer.{Mode, v4, v6, any}
use swarm_discovery.Sender.Delay.{
  as_u32, response_delay, query_delay, query_delay_bounds, next_extra_delay_bound,
  respond_delay_bounds,
}
use swarm_discovery.Sender.Machine.{
  Phase, querying, responding, stopped, State, Effect, start_timer, abort_timer, send_packet,
  send_peers, message, Environment, Step, begin_query, begin_response, end_response, after, cut_of,
  next_count, apply_update, while_querying, respond, while_responding, dispatch, start,
}
use swarm_discovery.Sender.Response.{make_query, update_response, make_response}
use swarm_discovery.Sender.Traces.{Ensures}

-- A cadence whose multiples by the sizes of swarms are within the range of a duration.
abbrev pub IsShort : Duration → Type 0
IsShort tau = tau + tau * 2 ^ 32 < duration_limit

abbrev pub HasDelay : Outcome Duration → Type 0
HasDelay delay = (d : Duration) × (delay ≡ ok d)

query_delay-HasDelay :
    (tau size millionth : ℕ)
    → IsShort tau
    → millionth < 1_000_000
    → HasDelay (query_delay tau size millionth)
query_delay-HasDelay tau size millionth short draw =
    let bounds =
      query_delay_bounds tau size millionth (omega (arith, short, smaller tau size)) draw in
    (bounds.0, bounds.1)
  where
    smaller : (tau size : ℕ) → tau * as_u32 size ≤ tau * 2 ^ 32
    smaller tau size = scaled tau (as_u32 size) (2 ^ 32) (omega arith)
      where
        scaled : (a b c : ℕ) → b ≤ c → a * b ≤ a * c
        scaled a b c h = grind arith

module _ {Name : Type 0} where
  abbrev pub IsTimed : Effect Name → Type 0
  IsTimed (start_timer delay count) = HasDelay delay
  IsTimed _ = Unit

  abbrev pub AllTimed : State Name → List (Effect Name) → Type 0
  AllTimed st es = All IsTimed es

module _ {Name : Type 0} (env : Environment Name) (draw : env.millionth < 1_000_000) where
  begin_query-Timed :
      (st : State Name) → IsShort st.discoverer.tau → All IsTimed (begin_query env st).1
  unfolding begin_query
  begin_query-Timed st short =
      (query_delay-HasDelay st.discoverer.tau st.swarm_size env.millionth short draw, tt)

  after-Timed :
      (es : List (Effect Name)) (r : Step Name)
      → All IsTimed es
      → Ensures AllTimed r
      → Ensures AllTimed (after es r)
  after-Timed [] (ok (st, more)) h k = k
  after-Timed (e ∷ es) (ok (st, more)) h k = (h.0, after-Timed es (ok (st, more)) h.1 k)
  after-Timed es panic h k = tt

  sending-Timed :
      (packet : Message Name) (mode : Mode) (r : Step Name)
      → Ensures AllTimed r
      → Ensures AllTimed (env.send_msg packet mode >>= λ _. r)
  sending-Timed packet mode r h = elim (Outcome-cases (env.send_msg packet mode)) [
    | inl (u, e) ↦ rw e h
    | inr e ↦ rw e tt
  ]

  begin_response-Timed :
      (cut : ℕ) (mode : Mode) (st : State Name)
      → st.extra_delay ≤ 10 * response_delay
      → 0 < cut
      → Ensures AllTimed (begin_response env cut mode st)
  unfolding begin_response
  begin_response-Timed cut mode st small positive =
      let (extra, e, b) =
        next_extra_delay_bound st.has_responded st.extra_delay st.swarm_size cut small positive in
      let delay = respond_delay_bounds extra st.swarm_size cut env.millionth b positive draw in
      rw (e, begin_response) ((delay.0, delay.1), tt)

module _ {Name : Type 0} (n : NameApi Name) (f : FloatOps) (service_name : Name)
    (env : Environment Name) (draw : env.millionth < 1_000_000) (st : State Name)
    (short : IsShort st.discoverer.tau) (small : st.extra_delay ≤ 10 * response_delay)
    (positive : 0 < cut_of n f service_name st) where
  apply_update-Timed :
      (input : GuardianInput) → Ensures AllTimed (apply_update n f service_name env input st)
  unfolding apply_update
  apply_update-Timed input =
      elim (Outcome-cases (update_response n env.now st.discoverer service_name input)) [
        | inl (p, e) ↦ rw (e, apply_update) tt
        | inr e ↦ rw (e, apply_update) tt
      ]

  responding-Timed :
      (mode : Mode) (es : List (Effect Name))
      → All IsTimed es
      → Ensures AllTimed (after es (begin_response env (cut_of n f service_name st) mode st))
  responding-Timed mode es h =
      after-Timed env draw es _ h (begin_response-Timed env draw _ mode st small positive)

  ending-Timed :
      (st' : State Name) (es : List (Effect Name))
      → st'.discoverer.tau ≡ st.discoverer.tau
      → All IsTimed es
      → Ensures AllTimed (after es (ok (end_response env st')))
  unfolding end_response
  ending-Timed st' es e h = after-Timed env draw es (ok (end_response env st')) h (
      begin_query-Timed env draw (record st' { timeout_count = next_count st'.timeout_count })
        (rw e short))

  while_querying-Timed :
      (msg : MdnsMsg) → Ensures AllTimed (while_querying n f service_name env msg st)
  unfolding while_querying
  while_querying-Timed query_v4 = responding-Timed v4 (abort_timer ∷ []) (tt, tt)
  while_querying-Timed query_v6 = responding-Timed v6 (abort_timer ∷ []) (tt, tt)
  while_querying-Timed (response resp) = (tt, tt)
  while_querying-Timed (timeout count) =
      if_both (Ensures AllTimed) (count == st.timeout_count)
        (sending-Timed env draw (make_query service_name) any _
          (responding-Timed any (send_packet (make_query service_name) any ∷ []) (tt, tt)))
        tt
  while_querying-Timed (size_update size) = tt
  while_querying-Timed (update input) = apply_update-Timed input

  respond-Timed : (mode : Mode) → Ensures AllTimed (respond n f service_name env mode st)
  unfolding respond
  respond-Timed mode = chosen st.response_msg
    where
      chosen :
          (r : Option (Message Name))
          → Ensures AllTimed (elim r [
            | none ↦ ok (end_response env st)
            | some m ↦ env.send_msg m mode >>= λ _.
                after
                  (send_packet m mode ∷ [])
                  (ok (end_response env (record st { has_responded = true })))
          ])
      chosen none = ending-Timed st [] refl tt
      chosen (some m) = sending-Timed env draw m mode _ (
          ending-Timed (record st { has_responded = true }) (send_packet m mode ∷ []) refl (tt, tt))

  while_responding-Timed :
      (mode : Mode) (heard : ℕ) (msg : MdnsMsg)
      → Ensures AllTimed (while_responding n f service_name env mode heard msg st)
  unfolding while_responding
  while_responding-Timed mode heard query_v4 = tt
  while_responding-Timed mode heard query_v6 = tt
  while_responding-Timed mode heard (response resp) =
      if_both (Ensures AllTimed)
        (leb (cut_of n f service_name st) ((heard + as_u32 (BtreeMap.len resp)) % 2 ^ 32))
        (ending-Timed st (send_peers resp ∷ abort_timer ∷ []) refl (tt, (tt, tt))) (tt, tt)
  while_responding-Timed mode heard (timeout count) =
      if_both (Ensures AllTimed) (count == st.timeout_count) (respond-Timed mode) tt
  while_responding-Timed mode heard (size_update size) = tt
  while_responding-Timed mode heard (update input) = apply_update-Timed input

  pub dispatch-Timed :
      (phase : Phase) (msg : MdnsMsg)
      → Ensures AllTimed (dispatch n f service_name env phase (message msg) st)
  unfolding dispatch
  dispatch-Timed querying msg = while_querying-Timed msg
  dispatch-Timed (responding mode heard) msg = while_responding-Timed mode heard msg
  dispatch-Timed stopped msg = tt

pub start-Timed :
    {Name : Type 0} (n : NameApi Name) (f : FloatOps) (service_name : Name) (env : Environment Name)
    (d : Discoverer)
    → env.millionth < 1_000_000
    → IsShort d.tau
    → Ensures AllTimed (start n f service_name env d)
unfolding start
start-Timed n f service_name env d draw short =
    elim (Outcome-cases (make_response n d service_name)) [
      | inl (r, e) ↦
          rw (e, start)
            (
              tt,
              begin_query-Timed env draw
                  (record {
                    discoverer = d;
                    response_msg = r;
                    timeout_count = 0;
                    swarm_size = 1;
                    extra_delay = 0;
                    has_responded = false;
                    phase = querying;
                  })
                  short,
            )
      | inr e ↦ rw (e, start) tt
    ]
