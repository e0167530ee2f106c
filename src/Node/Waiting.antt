-- ===== src/Node/Waiting.antt =====
-- The sender of a node has a timer for its phase, or the message of one.
use swarm_discovery.Prelude.{ℕ, ◌≡◌, ◌⊎◌, inl, inr, refl, subst, List, [], ◌∷◌, ◌++◌}
use swarm_discovery.Std.Float.{FloatOps}
use swarm_discovery.Std.Outcome.{Outcome, ok}
use swarm_discovery.Std.Time.{Duration}
use swarm_discovery.Discoverer.{Discoverer}
use swarm_discovery.Dns.{NameApi, Codec}
use swarm_discovery.Messages.{MdnsMsg, query_v4, query_v6, response, timeout, size_update, update}
use swarm_discovery.Sender.Machine
use swarm_discovery.Sender.Machine.{message, dispatch}
use swarm_discovery.Socket.{SocketApi, Sockets}
use swarm_discovery.Node.Rounds.{IsGoing, IsOther, Stays, Ends, handled-Round}
use swarm_discovery.Node.Starting.{begun-Started}
use swarm_discovery.Node.{
  Timer, running_after, Node, Step, call, guardian_round, receive, fire, fire_aborted, sender_round,
  updater_round, gc_fires, Reach, begin, next,
}

-- A timer with the number runs.
abbrev pub Runs : ℕ → List Timer → Type 0
Runs c [] = ⊥
Runs c ((delay, count) ∷ ts) = (count ≡ c) ⊎ Runs c ts

-- The message of such a timer waits.
abbrev pub Fired : ℕ → List MdnsMsg → Type 0
Fired c [] = ⊥
Fired c (timeout count ∷ ms) = (count ≡ c) ⊎ Fired c ms
Fired c (_ ∷ ms) = Fired c ms

Runs-without :
    (c : ℕ) (before after : List Timer) (delay : Outcome Duration) (count : ℕ)
    → Runs c (before ++ (delay, count) ∷ after)
    → (count ≡ c) ⊎ Runs c (before ++ after)
Runs-without c [] after delay count h = h
Runs-without c ((d, k) ∷ before) after delay count (inl e) = inr (inl e)
Runs-without c ((d, k) ∷ before) after delay count (inr h) =
    elim (Runs-without c before after delay count h) [ inl e ↦ inl e | inr r ↦ inr (inr r) ]

Fired-append : (c : ℕ) (ms more : List MdnsMsg) → Fired c ms → Fired c (ms ++ more)
Fired-append c [] more h = absurd h
Fired-append c (timeout k ∷ ms) more (inl e) = inl e
Fired-append c (timeout k ∷ ms) more (inr h) = inr (Fired-append c ms more h)
Fired-append c (query_v4 ∷ ms) more h = Fired-append c ms more h
Fired-append c (query_v6 ∷ ms) more h = Fired-append c ms more h
Fired-append c (response m ∷ ms) more h = Fired-append c ms more h
Fired-append c (size_update k ∷ ms) more h = Fired-append c ms more h
Fired-append c (update i ∷ ms) more h = Fired-append c ms more h

pub Fired-last : (c : ℕ) (ms : List MdnsMsg) → Fired c (ms ++ timeout c ∷ [])
Fired-last c [] = inl refl
Fired-last c (timeout k ∷ ms) = inr (Fired-last c ms)
Fired-last c (query_v4 ∷ ms) = Fired-last c ms
Fired-last c (query_v6 ∷ ms) = Fired-last c ms
Fired-last c (response m ∷ ms) = Fired-last c ms
Fired-last c (size_update k ∷ ms) = Fired-last c ms
Fired-last c (update i ∷ ms) = Fired-last c ms

Fired-behind :
    (c : ℕ) (msg : MdnsMsg) (ms : List MdnsMsg) → IsOther c msg → Fired c (msg ∷ ms) → Fired c ms
Fired-behind c (timeout k) ms o (inl e) = absurd (o e)
Fired-behind c (timeout k) ms o (inr h) = h
Fired-behind c query_v4 ms o h = h
Fired-behind c query_v6 ms o h = h
Fired-behind c (response m) ms o h = h
Fired-behind c (size_update k) ms o h = h
Fired-behind c (update i) ms o h = h

module _ {Name Os : Type 0} (n : NameApi Name) (codec : Codec Name) (f : FloatOps)
    (api : SocketApi Os) (service_name : Name) (d : Discoverer) where
  abbrev pub IsAwaited : Node Name Os → Type 0
  IsAwaited s = Runs s.sender.timeout_count s.timers ⊎ Fired s.sender.timeout_count s.mailbox

  record AwaitingIn (sender : Machine.State Name) (timers : List Timer) (mailbox : List MdnsMsg)
      : Type 0 where
    pub going : IsGoing sender.phase
    pub timer : Runs sender.timeout_count timers ⊎ Fired sender.timeout_count mailbox

  abbrev Awaiting : Node Name Os → Type 0
  Awaiting s = AwaitingIn s.sender s.timers s.mailbox

  more_mail :
      (s : Node Name Os) (more : List MdnsMsg)
      → Awaiting s
      → Awaiting (record s { mailbox = s.mailbox ++ more })
  more_mail s more i = record {
    going = i.going;
    timer = elim i.timer [
      | inl r ↦ inl r
      | inr m ↦ inr (Fired-append s.sender.timeout_count s.mailbox more m)
    ];
  }

  round-IsAwaited :
      (s : Node Name Os) (msg : MdnsMsg) (rest : List MdnsMsg) (st : Machine.State Name)
      (es : List (Machine.Effect Name))
      → Fired s.sender.timeout_count s.mailbox ⊎ Runs s.sender.timeout_count s.timers
      → s.mailbox ≡ msg ∷ rest
      → Stays msg s.sender st es ⊎ Ends st es
      → Runs st.timeout_count (running_after es s.timers) ⊎ Fired st.timeout_count rest
  round-IsAwaited s msg rest st es h e (inl stays) = elim h [
    | inl m ↦ inr (
        rw stays.same_count (
          Fired-behind s.sender.timeout_count msg rest stays.other
            (subst (Fired s.sender.timeout_count) e m)))
    | inr r ↦ inl (rw (stays.same_count, stays.same_timers s.timers) r)
  ]
  round-IsAwaited s msg rest st es h e (inr ends) =
      let (delay, ts, runs) = ends s.timers in inl (rw runs (inl refl))

  fired :
      (s : Node Name Os) (before after : List Timer) (delay : Duration) (count : ℕ)
      → s.timers ≡ before ++ (ok delay, count) ∷ after
      → Awaiting s
      → Awaiting (record s { timers = before ++ after; mailbox = s.mailbox ++ timeout count ∷ [] })
  fired s before after delay count e i = record {
    going = i.going;
    timer = elim i.timer [
      | inl r ↦
          elim (Runs-without s.sender.timeout_count before after (ok delay) count
            (subst (Runs s.sender.timeout_count) e r)) [
              | inl same ↦ inr (rw same (Fired-last s.sender.timeout_count s.mailbox))
              | inr other ↦ inl other
            ]
      | inr m ↦ inr (Fired-append s.sender.timeout_count s.mailbox (timeout count ∷ []) m)
    ];
  }

  Step-Awaiting :
      {s t : Node Name Os} → Step n codec f api service_name d s t → Awaiting s → Awaiting t
  Step-Awaiting {s} (call input h b) i = i
  Step-Awaiting {s} (guardian_round actor input rest g e) i = more_mail s _ i
  Step-Awaiting {s} (receive now bytes from msg via h) i = more_mail s (msg ∷ []) i
  Step-Awaiting {s} (fire before after delay count e) i = fired s before after delay count e i
  Step-Awaiting {s} (fire_aborted before after delay count e) i = more_mail s (timeout count ∷ []) i
  Step-Awaiting {s} (sender_round now millionth msg rest st es draw e h) i =
      let round = handled-Round n f service_name _ msg s.sender st es h i.going in
      record {
        going = round.going;
        timer =
            round-IsAwaited s msg rest st es (elim i.timer [ inl r ↦ inr r | inr m ↦ inl m ]) e
              round.timing;
      }
  Step-Awaiting {s} (updater_round now input rest st es interval g e h) i = more_mail s _ i
  Step-Awaiting {s} (gc_fires k e) i = i

  Reach-Awaiting :
      {sockets : Sockets} {s : Node Name Os}
      → Reach n codec f api service_name d sockets s
      → Awaiting s
  Reach-Awaiting (begin actor os env st es interval draw paced h) =
      let start = begun-Started n f service_name env d st es h in
      record { going = start.going; timer = inl (rw start.timer.1 (inl refl)) }
  Reach-Awaiting (next r step) = Step-Awaiting step (Reach-Awaiting r)

  -- In every state that a node reaches, the sender is in one of its two phases, and a timer with the
  -- number of this phase was started and has not been aborted, or its message waits in the sender's
  -- mailbox. (Nothing is said of whether the delay of this timer could be computed.)
  pub sender-IsAwaited :
      {sockets : Sockets} {s : Node Name Os}
      → Reach n codec f api service_name d sockets s
      → IsGoing s.sender.phase × IsAwaited s
  sender-IsAwaited r = let i = Reach-Awaiting r in (i.going, i.timer)
