-- ===== src/Sender/Timers.antt =====
-- Timers and packets along a run: each phase has a timer of its own, and ends with one packet at most.
use swarm_discovery.Prelude.{
  ℕ, ◌+◌, ◌%◌, ◌^◌, ◌≤◌, ◌<◌, ◌≡◌, refl, ap, ◌∙◌, ◌⊎◌, inl, inr, true, List, [], ◌∷◌, ◌++◌, ◌==◌,
  leb, length, arith, length-append, Option-cases, All, All-imp, if_both, suc,
}
use swarm_discovery.Std.BtreeMap
use swarm_discovery.Std.Float.{FloatOps}
use swarm_discovery.Std.Outcome.{Outcome, ok, panic, ◌>>=◌, Outcome-cases}
use swarm_discovery.Std.Time.{Duration}
use swarm_discovery.Std.Ord.{nat_ord}
use swarm_discovery.Std.Sort.{IsAscending}
use swarm_discovery.Dns.{NameApi, Message}
use swarm_discovery.Messages.{
  MdnsMsg, query_v4, query_v6, response, timeout, size_update, update, GuardianInput,
}
use swarm_discovery.Peer.{Mode, v4, v6, any}
use swarm_discovery.Sender.Response.{update_response, make_query}
use swarm_discovery.Sender.Delay.{next_extra_delay, as_u32}
use swarm_discovery.Sender.Traces.{timers, packets, timers-append, packets-append, Ensures}
use swarm_discovery.Sender.Machine.{
  Phase, querying, responding, stopped, State, Effect, start_timer, abort_timer, send_packet,
  send_peers, ActorInput, message, no_more_senders, Environment, Step, next_count, begin_query,
  begin_response, end_response, after, cut_of, apply_update, while_querying, respond,
  while_responding, dispatch, step, run,
}

next_count_lem : (c : ℕ) → c + 1 < 2 ^ 64 → next_count c ≡ c + 1
next_count_lem c h = omega arith

module _ {Name : Type 0} where
  -- A step from the count `c` stays in its phase, silent and with no new timer, or ends it, with one
  -- packet at most and a timer under the next number.
  abbrev Moves : ℕ → State Name → List (Effect Name) → Type 0
  Moves c st es =
      ((st.timeout_count ≡ c) × (timers es ≡ []) × (packets es ≡ []))
      ⊎ ((st.timeout_count ≡ c + 1) × ((timers es ≡ (c + 1) ∷ []) × (length (packets es) ≤ 1)))

  last_timer :
      (effects : List (Effect Name)) (delay : Outcome Duration) (c : ℕ)
      → c + 1 < 2 ^ 64
      → timers effects ≡ []
      → length (packets effects) ≤ 1
      → let es = effects ++ start_timer delay (next_count c) ∷ [] in
        (timers es ≡ (c + 1) ∷ []) × (length (packets es) ≤ 1)
  unfolding timers packets
  last_timer effects delay c h t p = (
    timers-append effects _ ∙ rw (t, next_count_lem c h),
    omega (
      arith,
      ap length (packets-append effects (start_timer delay (next_count c) ∷ [])),
      length-append (packets effects) [],
    ),
  )

  begin_response-Moves :
      (env : Environment Name) (cut : ℕ) (mode : Mode) (st : State Name)
      (effects : List (Effect Name))
      → st.timeout_count + 1 < 2 ^ 64
      → timers effects ≡ []
      → length (packets effects) ≤ 1
      → Ensures (Moves st.timeout_count) (after effects (begin_response env cut mode st))
  unfolding begin_response
  begin_response-Moves env cut mode st effects h t p =
      elim (Outcome-cases (next_extra_delay st.has_responded st.extra_delay st.swarm_size cut)) [
        | inl (extra, e) ↦
            rw (e, begin_response)
              (inr (next_count_lem st.timeout_count h, last_timer effects _ st.timeout_count h t p))
        | inr e ↦ rw (e, begin_response) tt
      ]

  end_response-Moves :
      (env : Environment Name) (st : State Name) (effects : List (Effect Name))
      → st.timeout_count + 1 < 2 ^ 64
      → timers effects ≡ []
      → length (packets effects) ≤ 1
      → Ensures (Moves st.timeout_count) (after effects (ok (end_response env st)))
  unfolding end_response begin_query
  end_response-Moves env st effects h t p =
      inr (next_count_lem st.timeout_count h, last_timer effects _ st.timeout_count h t p)

-- From the count `c`, over some rounds: the timers have numbers of their own, in ascending order, all
-- above `c` and none above the count at the end, and the packets are no more than the phases that
-- have ended, of which each round ends one at most.
pub record Advances {Name : Type 0} (c rounds : ℕ) (st : State Name) (es : List (Effect Name))
    : Type 0 where
  pub above : All (λ t. c < t) (timers es)
  pub below : All (λ t. t ≤ st.timeout_count) (timers es)
  pub ascending : IsAscending (timers es)
  pub few : c + length (packets es) ≤ st.timeout_count
  pub slow : st.timeout_count ≤ c + rounds

IsAscending-one :
    (t : ℕ) (ts : List ℕ) → All (λ u. t < u) ts → IsAscending ts → IsAscending (t ∷ ts)
unfolding nat_ord
IsAscending-one t ts b a = (All-imp (λ u h. ground arith) ts b, a)

module _ {Name : Type 0} (c rounds : ℕ) (st : State Name) (es : List (Effect Name))
    (last : State Name) (more : List (Effect Name))
    (a : Advances st.timeout_count rounds last more) where
  length-packets : length (packets (es ++ more)) ≡ length (packets es) + length (packets more)
  length-packets = ap length (packets-append es more) ∙ length-append (packets es) (packets more)

  Moves-Advances : Moves c st es → Advances c (suc rounds) last (es ++ more)
  Moves-Advances (inl m) = record {
    above = rw same (All-imp (λ t h. omega arith) (timers more) a.above);
    below = rw same a.below;
    ascending = rw same a.ascending;
    few = omega (arith, length-packets, ap length m.2);
    slow = omega arith;
  }
    where
      same : timers (es ++ more) ≡ timers more
      same = timers-append es more ∙ rw m.1
  Moves-Advances (inr m) = record {
    above = rw one_more (omega arith, All-imp (λ t h. omega arith) (timers more) a.above);
    below = rw one_more (omega arith, a.below);
    ascending = rw one_more (
        IsAscending-one (c + 1) (timers more) (All-imp (λ t h. omega arith) (timers more) a.above)
          a.ascending);
    few = omega (arith, length-packets);
    slow = omega arith;
  }
    where
      one_more : timers (es ++ more) ≡ (c + 1) ∷ timers more
      one_more = timers-append es more ∙ rw m.1.0

module _ {Name : Type 0} (n : NameApi Name) (f : FloatOps) (service_name : Name) where
  apply_update-Moves :
      (env : Environment Name) (input : GuardianInput) (st : State Name)
      → Ensures (Moves st.timeout_count) (apply_update n f service_name env input st)
  unfolding apply_update timers packets
  apply_update-Moves env input st =
      elim (Outcome-cases (update_response n env.now st.discoverer service_name input)) [
        | inl (d, e) ↦ rw (e, apply_update) (inl (refl, refl, refl))
        | inr e ↦ rw (e, apply_update) tt
      ]

  sending-Moves :
      (env : Environment Name) (msg : Message Name) (mode : Mode) (c : ℕ) (r : Step Name)
      → Ensures (Moves c) r
      → Ensures (Moves c) (env.send_msg msg mode >>= λ _. r)
  sending-Moves env msg mode c r h = elim (Outcome-cases (env.send_msg msg mode)) [
    | inl (u, e) ↦ rw e h
    | inr e ↦ rw e tt
  ]

  while_querying-Moves :
      (env : Environment Name) (msg : MdnsMsg) (st : State Name)
      → st.timeout_count + 1 < 2 ^ 64
      → Ensures (Moves st.timeout_count) (while_querying n f service_name env msg st)
  unfolding while_querying timers packets
  while_querying-Moves env query_v4 st h =
      begin_response-Moves env _ v4 st (abort_timer ∷ []) h refl (omega arith)
  while_querying-Moves env query_v6 st h =
      begin_response-Moves env _ v6 st (abort_timer ∷ []) h refl (omega arith)
  while_querying-Moves env (response resp) st h = inl (refl, refl, refl)
  while_querying-Moves env (timeout count) st h =
      if_both (Ensures (Moves st.timeout_count)) (count == st.timeout_count)
        (sending-Moves env (make_query service_name) any st.timeout_count _ (
          begin_response-Moves env _ any st (send_packet (make_query service_name) any ∷ []) h refl
            (omega arith)))
        (inl (refl, refl, refl))
  while_querying-Moves env (size_update size) st h = inl (refl, refl, refl)
  while_querying-Moves env (update input) st h = apply_update-Moves env input st

  respond-Moves :
      (env : Environment Name) (mode : Mode) (st : State Name)
      → st.timeout_count + 1 < 2 ^ 64
      → Ensures (Moves st.timeout_count) (respond n f service_name env mode st)
  unfolding respond timers packets
  respond-Moves env mode st h = elim (Option-cases st.response_msg) [
    | inl e ↦ rw (e, respond) (end_response-Moves env st [] h refl (omega arith))
    | inr (msg, e) ↦
        rw (e, respond)
          (sending-Moves env msg mode st.timeout_count _ (
            end_response-Moves env (record st { has_responded = true }) (send_packet msg mode ∷ [])
              h refl (omega arith)))
  ]

  while_responding-Moves :
      (env : Environment Name) (mode : Mode) (heard : ℕ) (msg : MdnsMsg) (st : State Name)
      → st.timeout_count + 1 < 2 ^ 64
      → Ensures (Moves st.timeout_count) (while_responding n f service_name env mode heard msg st)
  unfolding while_responding timers packets
  while_responding-Moves env mode heard (response resp) st h =
      if_both (Ensures (Moves st.timeout_count))
        (leb (cut_of n f service_name st) ((heard + as_u32 (BtreeMap.len resp)) % 2 ^ 32))
        (end_response-Moves env st (send_peers resp ∷ abort_timer ∷ []) h refl (omega arith))
        (inl (refl, refl, refl))
  while_responding-Moves env mode heard (timeout count) st h =
      if_both (Ensures (Moves st.timeout_count)) (count == st.timeout_count)
        (respond-Moves env mode st h) (inl (refl, refl, refl))
  while_responding-Moves env mode heard (size_update size) st h = inl (refl, refl, refl)
  while_responding-Moves env mode heard (update input) st h = apply_update-Moves env input st
  while_responding-Moves env mode heard query_v4 st h = inl (refl, refl, refl)
  while_responding-Moves env mode heard query_v6 st h = inl (refl, refl, refl)

  dispatch-Moves :
      (env : Environment Name) (phase : Phase) (input : ActorInput) (st : State Name)
      → st.timeout_count + 1 < 2 ^ 64
      → Ensures (Moves st.timeout_count) (dispatch n f service_name env phase input st)
  unfolding dispatch timers packets
  dispatch-Moves env querying (message msg) st h = while_querying-Moves env msg st h
  dispatch-Moves env querying no_more_senders st h = inl (refl, refl, refl)
  dispatch-Moves env (responding mode heard) (message msg) st h =
      while_responding-Moves env mode heard msg st h
  dispatch-Moves env (responding mode heard) no_more_senders st h = inl (refl, refl, refl)
  dispatch-Moves env stopped (message msg) st h = inl (refl, refl, refl)
  dispatch-Moves env stopped no_more_senders st h = inl (refl, refl, refl)

  -- Over any run that does not panic and in which the count cannot overflow, each timer has a
  -- number that no timer before it had, so that the message of a timer that was aborted too late
  -- is told from that of the present one; and no more packets are sent than phases end, of which
  -- each round ends one at most.
  pub run-Advances :
      (inputs : List (Environment Name × ActorInput)) (st : State Name)
      → st.timeout_count + length inputs < 2 ^ 64
      → Ensures (Advances st.timeout_count (length inputs)) (run n f service_name st inputs)
  unfolding run step timers packets
  run-Advances [] st h = record {
    above = tt;
    below = tt;
    ascending = tt;
    few = omega arith;
    slow = omega arith;
  }
  run-Advances ((env, input) ∷ inputs) st h =
      elim (Outcome-cases (dispatch n f service_name env st.phase input st)) [
        | inl (p, e) ↦
            let m = rw e at (dispatch-Moves env st.phase input st (omega arith)) in
            rw (e, run)
              (joined p m (run n f service_name p.0 inputs) (run-Advances inputs p.0 (bound p m)))
        | inr e ↦ rw (e, run) tt
      ]
    where
      bound :
          (p : State Name × List (Effect Name))
          → Moves st.timeout_count p.0 p.1
          → p.0.timeout_count + length inputs < 2 ^ 64
      bound p (inl m) = omega arith
      bound p (inr m) = omega arith

      joined :
          (p : State Name × List (Effect Name))
          → Moves st.timeout_count p.0 p.1
          → (r : Step Name) → Ensures (Advances p.0.timeout_count (length inputs)) r
          → Ensures (Advances st.timeout_count (suc (length inputs))) (after p.1 r)
      joined p m (ok (last, more)) a =
          Moves-Advances st.timeout_count (length inputs) p.0 p.1 last more a m
      joined p m panic a = tt
