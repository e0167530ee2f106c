-- ===== src/Node/Modes.antt =====
-- The modes in which the sender of a node responds: over IPv6 only if it has the socket for it.
use swarm_discovery.Prelude.{
  ℕ, ◌+◌, ◌%◌, ◌^◌, ◌≡◌, refl, subst, true, List, [], ◌∷◌, Option, none, some, ◌==◌, leb, if_both,
  inl, inr,
}
use swarm_discovery.Std.BtreeMap
use swarm_discovery.Std.Float.{FloatOps}
use swarm_discovery.Std.Ord.{nat_ord}
use swarm_discovery.Std.Outcome.{ok, ◌>>=◌, Outcome-cases}
use swarm_discovery.Dns.{NameApi, Message}
use swarm_discovery.Messages.{
  GuardianInput, MdnsMsg, query_v4, query_v6, response, timeout, size_update, update,
}
use swarm_discovery.Peer.{Mode, v4, v6, any}
use swarm_discovery.Sender.Delay.{as_u32, next_extra_delay}
use swarm_discovery.Sender.Machine.{
  Phase, querying, responding, stopped, State, Effect, abort_timer, send_packet, message,
  Environment, Step, begin_query, begin_response, end_response, after, cut_of, apply_update,
  while_querying, respond, while_responding, dispatch,
}
use swarm_discovery.Sender.Response.{make_query, update_response}
use swarm_discovery.Sender.Traces.{Ensures}
use swarm_discovery.Socket.{Sockets}
use swarm_discovery.Socket.Packets.{is_some}

abbrev pub CanSend : Sockets → Mode → Type 0
CanSend sockets v6 = is_some sockets.v6_socket ≡ true
CanSend sockets _ = Unit

abbrev pub CanAnswer : Sockets → Phase → Type 0
CanAnswer sockets (responding mode heard) = CanSend sockets mode
CanAnswer sockets _ = Unit

-- A query of IPv6 asks for a response over IPv6.
abbrev pub IsAnswerable : Sockets → MdnsMsg → Type 0
IsAnswerable sockets query_v6 = CanSend sockets v6
IsAnswerable sockets _ = Unit

module _ {Name : Type 0} (n : NameApi Name) (f : FloatOps) (service_name : Name) (sockets : Sockets)
    (env : Environment Name) where
  abbrev Answers : State Name → List (Effect Name) → Type 0
  Answers st es = CanAnswer sockets st.phase

  begin_response-Answers :
      (mode : Mode) (cut : ℕ) (st : State Name) (es : List (Effect Name))
      → CanSend sockets mode
      → Ensures Answers (after es (begin_response env cut mode st))
  unfolding begin_response
  begin_response-Answers mode cut st es h =
      elim (Outcome-cases (next_extra_delay st.has_responded st.extra_delay st.swarm_size cut)) [
        | inl (extra, e) ↦ rw (e, begin_response) h
        | inr e ↦ rw (e, begin_response) tt
      ]

  apply_update-Answers :
      (input : GuardianInput) (st : State Name)
      → CanAnswer sockets st.phase
      → Ensures Answers (apply_update n f service_name env input st)
  unfolding apply_update
  apply_update-Answers input st h =
      elim (Outcome-cases (update_response n env.now st.discoverer service_name input)) [
        | inl (p, e) ↦ rw (e, apply_update) h
        | inr e ↦ rw (e, apply_update) tt
      ]

  sending-Answers :
      (packet : Message Name) (mode : Mode) (r : Step Name)
      → Ensures Answers r
      → Ensures Answers (env.send_msg packet mode >>= λ _. r)
  sending-Answers packet mode r h = elim (Outcome-cases (env.send_msg packet mode)) [
    | inl (u, e) ↦ rw e h
    | inr e ↦ rw e tt
  ]

  respond-Answers :
      (mode : Mode) (st : State Name) → Ensures Answers (respond n f service_name env mode st)
  unfolding respond end_response begin_query
  respond-Answers mode st = chosen st.response_msg
    where
      chosen :
          (r : Option (Message Name))
          → Ensures Answers (elim r [
            | none ↦ ok (end_response env st)
            | some m ↦ env.send_msg m mode >>= λ _.
                after
                  (send_packet m mode ∷ [])
                  (ok (end_response env (record st { has_responded = true })))
          ])
      chosen none = tt
      chosen (some m) = sending-Answers m mode _ tt

  pub dispatch-Answers :
      (phase : Phase) (msg : MdnsMsg) (st : State Name)
      → st.phase ≡ phase
      → CanAnswer sockets st.phase
      → IsAnswerable sockets msg
      → Ensures Answers (dispatch n f service_name env phase (message msg) st)
  unfolding dispatch while_querying while_responding end_response begin_query
  dispatch-Answers querying query_v4 st e h k = begin_response-Answers v4 _ st (abort_timer ∷ []) tt
  dispatch-Answers querying query_v6 st e h k = begin_response-Answers v6 _ st (abort_timer ∷ []) k
  dispatch-Answers querying (response m) st e h k = h
  dispatch-Answers querying (timeout c) st e h k =
      if_both (Ensures Answers) (c == st.timeout_count)
        (sending-Answers (make_query service_name) any _
          (begin_response-Answers any _ st (send_packet (make_query service_name) any ∷ []) tt))
        h
  dispatch-Answers querying (size_update k) st e h a = h
  dispatch-Answers querying (update input) st e h k = apply_update-Answers input st h
  dispatch-Answers (responding mode heard) query_v4 st e h k = h
  dispatch-Answers (responding mode heard) query_v6 st e h k = h
  dispatch-Answers (responding mode heard) (response m) st e h k =
      if_both (Ensures Answers)
        (leb (cut_of n f service_name st) ((heard + as_u32 (BtreeMap.len m)) % 2 ^ 32)) tt
        (subst (CanAnswer sockets) e h)
  dispatch-Answers (responding mode heard) (timeout c) st e h k =
      if_both (Ensures Answers) (c == st.timeout_count) (respond-Answers mode st) h
  dispatch-Answers (responding mode heard) (size_update size) st e h k = h
  dispatch-Answers (responding mode heard) (update input) st e h k = apply_update-Answers input st h
  dispatch-Answers stopped msg st e h k = h

  -- Sending over IPv6 never fails.
  abbrev pub lenient : Environment Name
  lenient = record env {
    send_msg = λ packet mode. elim mode [ v6 ↦ ok tt | other ↦ env.send_msg packet other ];
  }

  -- Where the sender does not respond over IPv6, this makes no difference.
  abbrev pub IsElsewhere : Phase → Type 0
  IsElsewhere (responding v6 heard) = ⊥
  IsElsewhere _ = Unit

  pub dispatch-lenient :
      (phase : Phase) (msg : MdnsMsg) (st : State Name)
      → IsElsewhere phase
      → dispatch n f service_name lenient phase (message msg) st
        ≡ dispatch n f service_name env phase (message msg) st
  unfolding dispatch while_querying while_responding begin_response end_response begin_query respond
      apply_update
  dispatch-lenient querying query_v4 st h = refl
  dispatch-lenient querying query_v6 st h = refl
  dispatch-lenient querying (response m) st h = refl
  dispatch-lenient querying (timeout c) st h = refl
  dispatch-lenient querying (size_update k) st h = refl
  dispatch-lenient querying (update input) st h = refl
  dispatch-lenient (responding v6 heard) msg st h = absurd h
  dispatch-lenient (responding v4 heard) query_v4 st h = refl
  dispatch-lenient (responding v4 heard) query_v6 st h = refl
  dispatch-lenient (responding v4 heard) (response m) st h = refl
  dispatch-lenient (responding v4 heard) (timeout c) st h = refl
  dispatch-lenient (responding v4 heard) (size_update k) st h = refl
  dispatch-lenient (responding v4 heard) (update input) st h = refl
  dispatch-lenient (responding any heard) query_v4 st h = refl
  dispatch-lenient (responding any heard) query_v6 st h = refl
  dispatch-lenient (responding any heard) (response m) st h = refl
  dispatch-lenient (responding any heard) (timeout c) st h = refl
  dispatch-lenient (responding any heard) (size_update k) st h = refl
  dispatch-lenient (responding any heard) (update input) st h = refl
  dispatch-lenient stopped msg st h = refl
