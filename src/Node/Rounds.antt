-- ===== src/Node/Rounds.antt =====
-- A round of the sender, as the rest of the node sees it: what it hands on, and its timers.
use swarm_discovery.Prelude.{
  ℕ, ◌+◌, ◌%◌, ◌^◌, ◌≡◌, ◌≢◌, ◌⊎◌, inl, inr, refl, sym, subst, ◌∙◌, true, false, List, [], ◌∷◌,
  ◌++◌, Option, none, some, ◌==◌, leb, Bool-cases, ==_iff,
}
use swarm_discovery.Std.BtreeMap
use swarm_discovery.Std.Float.{FloatOps}
use swarm_discovery.Std.Outcome.{Outcome, ok, ◌>>=◌, Outcome-cases}
use swarm_discovery.Std.Time.{Duration}
use swarm_discovery.Std.Ord.{nat_ord}
use swarm_discovery.Dns.{NameApi, Message}
use swarm_discovery.Messages.{
  GuardianInput, MdnsMsg, query_v4, query_v6, response, timeout, size_update, update, UpdaterInput,
  peers,
}
use swarm_discovery.Peer.{Mode, v4, v6, any}
use swarm_discovery.Sender.Delay.{as_u32, next_extra_delay}
use swarm_discovery.Sender.Response.{make_query, update_response}
use swarm_discovery.Sender.Machine.{
  Phase, querying, responding, stopped, State, Effect, start_timer, abort_timer, send_packet,
  send_peers, Environment, Step, message, begin_query, begin_response, end_response, after, cut_of,
  apply_update, while_querying, respond, while_responding, dispatch,
}
use swarm_discovery.Sender.Traces.{Ensures}
use swarm_discovery.Node.{Timer, running_after, to_updater}

-- The responses are handed on to the updater.
abbrev pub relayed : MdnsMsg → List UpdaterInput
relayed (response m) = peers m ∷ []
relayed _ = []

abbrev pub IsGoing : Phase → Type 0
IsGoing stopped = ⊥
IsGoing _ = Unit

abbrev pub IsOther : ℕ → MdnsMsg → Type 0
IsOther count (timeout c) = c ≢ count
IsOther count _ = Unit

-- The size that the sender knows when it has handled some messages.
abbrev pub size_after : ℕ → List MdnsMsg → ℕ
size_after k [] = k
size_after k (size_update size ∷ ms) = size_after size ms
size_after k (_ ∷ ms) = size_after k ms

module _ {Name : Type 0} where
  -- The round stays in its phase, with its timer, and was not made by this timer.
  pub record Stays (msg : MdnsMsg) (st st' : State Name) (es : List (Effect Name)) : Type 0 where
    pub same_count : st'.timeout_count ≡ st.timeout_count
    pub same_timers : (live : List Timer) → running_after es live ≡ live
    pub other : IsOther st.timeout_count msg

  -- The round ends its phase, and starts a timer with the new count.
  abbrev pub Ends : State Name → List (Effect Name) → Type 0
  Ends st' es =
      (live : List Timer)
      → (delay : Outcome Duration) × (rest : List Timer) × (running_after es live
          ≡ (delay, st'.timeout_count) ∷ rest)

  pub record Round (msg : MdnsMsg) (st st' : State Name) (es : List (Effect Name)) : Type 0 where
    pub handed : to_updater es ≡ relayed msg
    pub going : IsGoing st'.phase
    pub sized : st'.swarm_size ≡ size_after st.swarm_size (msg ∷ [])
    pub timing : Stays msg st st' es ⊎ Ends st' es

  staying :
      (msg : MdnsMsg) (st st' : State Name) (es : List (Effect Name))
      → to_updater es ≡ relayed msg
      → IsGoing st'.phase
      → st'.timeout_count ≡ st.timeout_count
      → ((live : List Timer) → running_after es live ≡ live)
      → IsOther st.timeout_count msg
      → st'.swarm_size ≡ size_after st.swarm_size (msg ∷ [])
      → Round msg st st' es
  staying msg st st' es h g c l o z = record {
    handed = h;
    going = g;
    sized = z;
    timing = inl (record { same_count = c; same_timers = l; other = o });
  }

  sending-Round :
      (env : Environment Name) (packet : Message Name) (mode : Mode) (msg : MdnsMsg)
      (st : State Name) (r : Step Name)
      → Ensures (Round msg st) r
      → Ensures (Round msg st) (env.send_msg packet mode >>= λ _. r)
  sending-Round env packet mode msg st r h = elim (Outcome-cases (env.send_msg packet mode)) [
    | inl (u, e) ↦ rw e h
    | inr e ↦ rw e tt
  ]

-- A timer started last is the one that runs.
replaced :
    (Name : Type 0) (delay : Outcome Duration) (c : ℕ) (live : List Timer)
    → (delay' : Outcome Duration) × (rest : List Timer) × (running_after {Name = Name}
          (abort_timer ∷ start_timer delay c ∷ [])
          live
        ≡ (delay', c) ∷ rest)
replaced Name delay c [] = (delay, [], refl)
replaced Name delay c (t ∷ live) = (delay, live, refl)

module _ {Name : Type 0} (n : NameApi Name) (f : FloatOps) (service_name : Name) where
  begin_response-Round :
      (env : Environment Name) (mode : Mode) (msg : MdnsMsg) (st : State Name)
      (es : List (Effect Name)) (cut : ℕ)
      → relayed msg ≡ []
      → size_after st.swarm_size (msg ∷ []) ≡ st.swarm_size
      → ((delay : Outcome Duration) (c : ℕ) → to_updater (es ++ start_timer delay c ∷ []) ≡ [])
      → ((delay : Outcome Duration) (c : ℕ) (live : List Timer)
          → (delay' : Outcome Duration) × (rest : List Timer) × (running_after
                (es ++ start_timer delay c ∷ [])
                live
              ≡ (delay', c) ∷ rest))
      → Ensures (Round msg st) (after es (begin_response env cut mode st))
  unfolding begin_response
  begin_response-Round env mode msg st es cut r z h l =
      elim (Outcome-cases (next_extra_delay st.has_responded st.extra_delay st.swarm_size cut)) [
        | inl (extra, e) ↦
            rw (e, begin_response)
              (record { handed = h _ _ ∙ sym r; going = tt; sized = sym z; timing = inr (l _ _) })
        | inr e ↦ rw (e, begin_response) tt
      ]

  unmatched : (count c : ℕ) → (count == c) ≡ false → count ≢ c
  unmatched count c h e = cc ((==_iff count c).1 e)

  apply_update-Round :
      (env : Environment Name) (input : GuardianInput) (st : State Name)
      → IsGoing st.phase
      → Ensures (Round (update input) st) (apply_update n f service_name env input st)
  unfolding apply_update
  apply_update-Round env input st g =
      elim (Outcome-cases (update_response n env.now st.discoverer service_name input)) [
        | inl (p, e) ↦
            rw (e, apply_update) (staying (update input) st _ [] refl g refl (λ live. refl) tt refl)
        | inr e ↦ rw (e, apply_update) tt
      ]

  while_querying-Round :
      (env : Environment Name) (msg : MdnsMsg) (st : State Name)
      → IsGoing st.phase
      → Ensures (Round msg st) (while_querying n f service_name env msg st)
  unfolding while_querying
  while_querying-Round env query_v4 st g =
      begin_response-Round env v4 query_v4 st (abort_timer ∷ []) _ refl refl (λ d c. refl)
        (replaced Name)
  while_querying-Round env query_v6 st g =
      begin_response-Round env v6 query_v6 st (abort_timer ∷ []) _ refl refl (λ d c. refl)
        (replaced Name)
  while_querying-Round env (response resp) st g =
      staying (response resp) st st (send_peers resp ∷ []) refl g refl (λ live. refl) tt refl
  while_querying-Round env (timeout count) st g = elim (Bool-cases (count == st.timeout_count)) [
    | inl e ↦ rw e (
        sending-Round env (make_query service_name) any (timeout count) st _ (
          begin_response-Round env any (timeout count) st
            (send_packet (make_query service_name) any ∷ []) _ refl refl (λ d c. refl)
            (λ d c live. (d, live, refl))))
    | inr e ↦ rw e (
        staying (timeout count) st st [] refl g refl (λ live. refl)
          (unmatched count st.timeout_count e) refl)
  ]
  while_querying-Round env (size_update size) st g =
      staying (size_update size) st _ [] refl g refl (λ live. refl) tt refl
  while_querying-Round env (update input) st g = apply_update-Round env input st g

  respond-Round :
      (env : Environment Name) (mode : Mode) (count : ℕ) (st : State Name)
      → Ensures (Round (timeout count) st) (respond n f service_name env mode st)
  unfolding respond end_response begin_query
  respond-Round env mode count st = chosen st.response_msg
    where
      chosen :
          (r : Option (Message Name))
          → Ensures (Round (timeout count) st) (elim r [
            | none ↦ ok (end_response env st)
            | some m ↦ env.send_msg m mode >>= λ _.
                after
                  (send_packet m mode ∷ [])
                  (ok (end_response env (record st { has_responded = true })))
          ])
      chosen none = record {
        handed = refl;
        going = tt;
        sized = refl;
        timing = inr (λ live. (_, live, refl));
      }
      chosen (some msg) = sending-Round env msg mode (timeout count) st _ (record {
        handed = refl;
        going = tt;
        sized = refl;
        timing = inr (λ live. (_, live, refl));
      })

  while_responding-Round :
      (env : Environment Name) (mode : Mode) (heard : ℕ) (msg : MdnsMsg) (st : State Name)
      → IsGoing st.phase
      → Ensures (Round msg st) (while_responding n f service_name env mode heard msg st)
  unfolding while_responding end_response begin_query
  while_responding-Round env mode heard query_v4 st g =
      staying query_v4 st st [] refl g refl (λ live. refl) tt refl
  while_responding-Round env mode heard query_v6 st g =
      staying query_v6 st st [] refl g refl (λ live. refl) tt refl
  while_responding-Round env mode heard (response resp) st g =
      elim (Bool-cases
        (leb (cut_of n f service_name st) ((heard + as_u32 (BtreeMap.len resp)) % 2 ^ 32))) [
          | inl e ↦
              rw e (record {
                handed = refl;
                going = tt;
                sized = refl;
                timing = inr (replaced Name _ _);
              })
          | inr e ↦ rw e (
              staying (response resp) st _ (send_peers resp ∷ []) refl tt refl (λ live. refl) tt
                refl)
        ]
  while_responding-Round env mode heard (timeout count) st g =
      elim (Bool-cases (count == st.timeout_count)) [
        | inl e ↦ rw e (respond-Round env mode count st)
        | inr e ↦ rw e (
            staying (timeout count) st st [] refl g refl (λ live. refl)
              (unmatched count st.timeout_count e) refl)
      ]
  while_responding-Round env mode heard (size_update size) st g =
      staying (size_update size) st _ [] refl g refl (λ live. refl) tt refl
  while_responding-Round env mode heard (update input) st g = apply_update-Round env input st g

  dispatch-Round :
      (env : Environment Name) (phase : Phase) (msg : MdnsMsg) (st : State Name)
      → st.phase ≡ phase
      → IsGoing st.phase
      → Ensures (Round msg st) (dispatch n f service_name env phase (message msg) st)
  unfolding dispatch
  dispatch-Round env querying msg st e g = while_querying-Round env msg st g
  dispatch-Round env (responding mode heard) msg st e g =
      while_responding-Round env mode heard msg st g
  dispatch-Round env stopped msg st e g = absurd (rw e at g)

  -- What a round of the sender that does not panic comes to.
  pub handled-Round :
      (env : Environment Name) (msg : MdnsMsg) (st st' : State Name) (es : List (Effect Name))
      → dispatch n f service_name env st.phase (message msg) st ≡ ok (st', es)
      → IsGoing st.phase
      → Round msg st st' es
  handled-Round env msg st st' es h g =
      subst (Ensures (Round msg st)) h (dispatch-Round env st.phase msg st refl g)
