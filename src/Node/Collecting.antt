-- ===== src/Node/Collecting.antt =====
-- The garbage collection of a node goes on, and is not started twice.
use swarm_discovery.Prelude.{
  ℕ, suc, ◌+◌, ◌≡◌, refl, ap, subst, ◌∙◌, Bool, true, false, List, [], ◌∷◌, ◌++◌, arith,
  if◌then◌else◌, Bool-cases, inl, inr,
}
use swarm_discovery.Std.BtreeMap
use swarm_discovery.Std.BtreeMap.{BtreeMap}
use swarm_discovery.Std.Float.{F32, FloatOps}
use swarm_discovery.Std.Ord.{list_ord, nat_ord}
use swarm_discovery.Std.Outcome.{Outcome, ok, panic, Outcome-cases}
use swarm_discovery.Std.Text.{Str, is_empty}
use swarm_discovery.Std.Time.{Duration, Instant}
use swarm_discovery.Discoverer.{Discoverer}
use swarm_discovery.Dns.{NameApi, Codec}
use swarm_discovery.Messages.{
  MdnsMsg, query_v4, query_v6, response, timeout, size_update, update, UpdaterInput, peers, gc,
  size_subscription,
}
use swarm_discovery.Peer.{Peer}
use swarm_discovery.Sender.Machine.{Phase}
use swarm_discovery.Socket.{SocketApi, Sockets}
use swarm_discovery.Updater.{
  State, Effect, callback, send, start_gc, notify, subs_of, insert_peers, collect, handle_input,
  kept, expiries, grace_period,
}
use swarm_discovery.Node.Rounds.{IsGoing, handled-Round, relayed}
use swarm_discovery.Node.Starting.{begun-Started}
use swarm_discovery.Node.{
  Node, Step, call, guardian_round, receive, fire, fire_aborted, sender_round, updater_round,
  gc_fires, Reach, begin, next, gc_started, to_updater,
}

-- The messages `GC` that wait.
abbrev pub gc_waiting : List UpdaterInput → ℕ
gc_waiting [] = 0
gc_waiting (gc ∷ inputs) = suc (gc_waiting inputs)
gc_waiting (_ ∷ inputs) = gc_waiting inputs

gc_waiting-append :
    (xs ys : List UpdaterInput) → gc_waiting (xs ++ ys) ≡ gc_waiting xs + gc_waiting ys
gc_waiting-append [] ys = omega arith
gc_waiting-append (gc ∷ xs) ys = omega (arith, gc_waiting-append xs ys)
gc_waiting-append (peers m ∷ xs) ys = gc_waiting-append xs ys
gc_waiting-append (size_subscription s ∷ xs) ys = gc_waiting-append xs ys

gc_started-append : (xs ys : List Effect) → gc_started (xs ++ ys) ≡ gc_started xs + gc_started ys
gc_started-append [] ys = omega arith
gc_started-append (callback id p ∷ xs) ys = gc_started-append xs ys
gc_started-append (send s k ∷ xs) ys = gc_started-append xs ys
gc_started-append (start_gc t ∷ xs) ys = omega (arith, gc_started-append xs ys)

gc_started-notify : (subs : List ℕ) (size : ℕ) → gc_started (notify subs size) ≡ 0
unfolding notify
gc_started-notify [] size = refl
gc_started-notify (s ∷ subs) size = gc_started-notify subs size

gc_started-expiries :
    (now : Instant) (grace : Duration) (table : BtreeMap Str Peer)
    → gc_started (expiries now grace table) ≡ 0
unfolding expiries
gc_started-expiries now grace [] = refl
gc_started-expiries now grace ((id, p) ∷ rest) = ground (arith, gc_started-expiries now grace rest)

gc_started-insert_peers :
    (m : BtreeMap Str Peer) (st : State) → gc_started (insert_peers m st).1 ≡ 0
unfolding insert_peers
gc_started-insert_peers [] st = refl
gc_started-insert_peers ((id, p) ∷ rest) st =
    let st' : State = record st { table = BtreeMap.insert id p st.table } in
    let news : List Effect =
      if BtreeMap.contains_key id st.table
      then []
      else notify (subs_of st) (BtreeMap.len st'.table) in
    gc_started-append news (insert_peers rest st').1
    ∙ omega (arith, gc_started-insert_peers rest st', silent (BtreeMap.contains_key id st.table))
  where
    silent :
        (known : Bool)
        → gc_started (
            if known
            then []
            else notify (subs_of st) (BtreeMap.len (BtreeMap.insert id p st.table)))
          ≡ 0
    silent true = refl
    silent false = gc_started-notify (subs_of st) _

-- A round of the updater starts a timer for each `GC` that it handles.
abbrev Restarts : UpdaterInput → Outcome (State × List Effect) → Type 0
Restarts input (ok (st, es)) = gc_started es ≡ gc_waiting (input ∷ [])
Restarts input panic = Unit

handle_input-Restarts :
    (f : FloatOps) (tau : Duration) (phi : F32) (interval : Duration) (now : Instant) (st : State)
    (input : UpdaterInput)
    → Restarts input (handle_input f tau phi interval now st input)
unfolding handle_input collect
handle_input-Restarts f tau phi interval now st (peers m) = gc_started-insert_peers m st
handle_input-Restarts f tau phi interval now st (size_subscription s) = refl
handle_input-Restarts f tau phi interval now st gc = elim (Bool-cases (is_empty st.table)) [
  | inl e ↦ rw e refl
  | inr e ↦ elim (Outcome-cases (grace_period f tau phi (BtreeMap.len st.table))) [
    | inl (g, q) ↦
        rw (e, q, collect)
          (let told : List Effect = notify (subs_of st) (BtreeMap.len (kept now g st.table)) in
            omega (
              arith,
              gc_started-append (expiries now g st.table) told,
              gc_started-expiries now g st.table,
              gc_started-notify (subs_of st) (BtreeMap.len (kept now g st.table)),
            ))
    | inr q ↦ rw (e, q, collect) tt
  ]
]

relayed_waiting : (msg : MdnsMsg) → gc_waiting (relayed msg) ≡ 0
relayed_waiting (response m) = refl
relayed_waiting query_v4 = refl
relayed_waiting query_v6 = refl
relayed_waiting (timeout c) = refl
relayed_waiting (size_update k) = refl
relayed_waiting (update i) = refl

gc_waiting-cons :
    (input : UpdaterInput) (rest : List UpdaterInput)
    → gc_waiting (input ∷ rest) ≡ gc_waiting (input ∷ []) + gc_waiting rest
gc_waiting-cons gc rest = omega arith
gc_waiting-cons (peers m) rest = omega arith
gc_waiting-cons (size_subscription s) rest = omega arith

module _ {Name Os : Type 0} (n : NameApi Name) (codec : Codec Name) (f : FloatOps)
    (api : SocketApi Os) (service_name : Name) (d : Discoverer) where
  record CollectingIn (phase : Phase) (gc_timers : ℕ) (updates : List UpdaterInput) : Type 0 where
    pub going : IsGoing phase
    pub once : gc_timers + gc_waiting updates ≡ 1

  abbrev Collecting : Node Name Os → Type 0
  Collecting s = CollectingIn s.sender.phase s.gc_timers s.updates

  Step-Collecting :
      {s t : Node Name Os} → Step n codec f api service_name d s t → Collecting s → Collecting t
  Step-Collecting {s} (call input h b) i = i
  Step-Collecting {s} (guardian_round actor input rest g e) i = i
  Step-Collecting {s} (receive now bytes from msg via h) i = i
  Step-Collecting {s} (fire before after delay count e) i = i
  Step-Collecting {s} (fire_aborted before after delay count e) i = i
  Step-Collecting {s} (sender_round now millionth msg rest st es draw e h) i =
      let round = handled-Round n f service_name _ msg s.sender st es h i.going in
      record {
        going = round.going;
        once = omega (
          arith,
          i.once,
          gc_waiting-append s.updates (to_updater es),
          ap gc_waiting round.handed,
          relayed_waiting msg,
        );
      }
  Step-Collecting {s} (updater_round now input rest st es interval g e h) i =
      let restarted =
        subst (Restarts input) h
          (handle_input-Restarts f d.tau d.phi interval now s.updater input) in
      record {
        going = i.going;
        once = omega (arith, i.once, restarted, ap gc_waiting e, gc_waiting-cons input rest);
      }
  Step-Collecting {s} (gc_fires k e) i = record {
    going = i.going;
    once = omega (arith, i.once, e, gc_waiting-append s.updates (gc ∷ []));
  }

  Reach-Collecting :
      {sockets : Sockets} {s : Node Name Os}
      → Reach n codec f api service_name d sockets s
      → Collecting s
  Reach-Collecting (begin actor os env st es interval draw paced h) =
      let start = begun-Started n f service_name env d st es h in
      record { going = start.going; once = omega (arith, ap gc_waiting start.subscribed) }
  Reach-Collecting (next r step) = Step-Collecting step (Reach-Collecting r)

  -- In every state that a node reaches, exactly one garbage collection is to come: either one timer
  -- runs, or one message waits.
  pub one_collection :
      {sockets : Sockets} {s : Node Name Os}
      → Reach n codec f api service_name d sockets s
      → s.gc_timers + gc_waiting s.updates ≡ 1
  one_collection r = (Reach-Collecting r).once
