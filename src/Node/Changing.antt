-- ===== src/Node/Changing.antt =====
-- What the calls on the guard of a node make of it.
use swarm_discovery.Prelude.{
  ℕ, ◌≡◌, refl, sym, ap, subst, ◌∙◌, List, [], ◌∷◌, ◌++◌, All, append_assoc, append-nil, map,
}
use swarm_discovery.Std.Float.{FloatOps}
use swarm_discovery.Std.Ord.{nat_ord}
use swarm_discovery.Std.Outcome.{ok}
use swarm_discovery.Std.Time.{Instant}
use swarm_discovery.Discoverer.{Discoverer}
use swarm_discovery.Dns.{NameApi, Codec}
use swarm_discovery.Guard.{Call, make_all, of_task}
use swarm_discovery.Guard.Calls.{sent_by_all, make_all-drop}
use swarm_discovery.Guardian
use swarm_discovery.Guardian.Forwarding.{sent, own, handle_input-GoesOn}
use swarm_discovery.Messages.{
  GuardianInput, MdnsMsg, query_v4, query_v6, response, timeout, size_update, update,
}
use swarm_discovery.Sender.Ports.{AddsPorts}
use swarm_discovery.Sender.Response.{make_response}
use swarm_discovery.Sender.Sound.{Built}
use swarm_discovery.Socket.{SocketApi, Sockets}
use swarm_discovery.Node.Applying.{
  posted, own_all, waiting, apply_all, inputs_of, applied, posted-append, posted-update,
  posted-sizes_sent, apply_all-append, inputs_of-append, Applies, dispatch-Applies,
}
use swarm_discovery.Node.Calling.{with_inbox, make_all-Reached}
use swarm_discovery.Node.Current.{node-Announces}
use swarm_discovery.Node.Resting.{IsAtRest}
use swarm_discovery.Node.Sane.{env_of}
use swarm_discovery.Node.Settling.{IsRound, Rounds, done, more, Rounds-Reach}
use swarm_discovery.Node.Waiting.{sender-IsAwaited}
use swarm_discovery.Node.{
  Node, Step, call, guardian_round, receive, fire, fire_aborted, sender_round, updater_round,
  gc_fires, Reach, sizes_sent,
}

own_all-append : (xs ys : List GuardianInput) → own_all (xs ++ ys) ≡ own_all xs ++ own_all ys
own_all-append [] ys = refl
own_all-append (x ∷ xs) ys =
    ap (λ l. own x ++ l) (own_all-append xs ys)
    ∙ sym (append_assoc (own x) (own_all xs) (own_all ys))

-- The sender applies an update, or something else.
posted-cons :
    (now : Instant) (msg : MdnsMsg) (ms : List MdnsMsg)
    → posted (msg ∷ ms) ≡ inputs_of (applied now msg) ++ posted ms
posted-cons now (update input) ms = refl
posted-cons now query_v4 ms = refl
posted-cons now query_v6 ms = refl
posted-cons now (response m) ms = refl
posted-cons now (timeout c) ms = refl
posted-cons now (size_update k) ms = refl

module _ {Name Os : Type 0} (n : NameApi Name) (codec : Codec Name) (f : FloatOps)
    (api : SocketApi Os) (service_name : Name) (d : Discoverer) (sockets : Sockets) where
  -- The updates that have been applied, and then those that still wait, are those that waited.
  record HasApplied (start_d : Discoverer) (all : List GuardianInput) (t : Node Name Os)
      : Type 0 where
    pub past : List (Instant × GuardianInput)
    pub in_order : inputs_of past ++ waiting t ≡ all
    pub result : t.sender.discoverer ≡ apply_all past start_d

  Step-HasApplied :
      {s t : Node Name Os} (start_d : Discoverer) (all : List GuardianInput)
      (step : Step n codec f api service_name d s t)
      → Reach n codec f api service_name d sockets s
      → IsRound n codec f api service_name d step
      → HasApplied start_d all s
      → HasApplied start_d all t
  Step-HasApplied {s} start_d all (guardian_round actor input rest g e) r h i = record {
    past = i.past;
    in_order = ap (λ l. inputs_of i.past ++ l) same ∙ i.in_order;
    result = i.result;
  }
    where
      handed : List GuardianInput
      handed = sent (Guardian.handle_input api actor input s.guardian).1

      forwarded : handed ≡ own input
      forwarded = (handle_input-GoesOn api actor input s.guardian g).1

      same :
          posted (s.mailbox ++ map update handed) ++ own_all rest
          ≡ posted s.mailbox ++ own_all s.inbox
      same =
          ap (λ l. l ++ own_all rest)
            (posted-append s.mailbox (map update handed)
              ∙ ap (λ l. posted s.mailbox ++ l) (posted-update handed ∙ forwarded))
          ∙ append_assoc (posted s.mailbox) (own input) (own_all rest)
          ∙ ap (λ l. posted s.mailbox ++ own_all l) (sym e)
  Step-HasApplied {s} start_d all (sender_round now millionth msg rest st es draw e q) r h i =
      let changed = subst (Applies n f service_name (env_of codec s now millionth) msg s.sender) q (
        dispatch-Applies n f service_name (env_of codec s now millionth) s.sender.phase msg s.sender
          (sender-IsAwaited n codec f api service_name d r).0) in
      record {
        past = i.past ++ applied now msg;
        in_order =
            ap (λ l. l ++ (posted rest ++ own_all s.inbox))
              (inputs_of-append i.past (applied now msg))
            ∙ append_assoc (inputs_of i.past) (inputs_of (applied now msg))
                (posted rest ++ own_all s.inbox)
            ∙ ap (λ l. inputs_of i.past ++ l)
                (sym (append_assoc (inputs_of (applied now msg)) (posted rest) (own_all s.inbox))
                  ∙ ap (λ l. l ++ own_all s.inbox)
                      (sym (posted-cons now msg rest) ∙ ap posted (sym e)))
            ∙ i.in_order;
        result =
            changed
            ∙ ap (apply_all (applied now msg)) i.result
            ∙ sym (apply_all-append i.past (applied now msg) start_d);
      }
  Step-HasApplied {s} start_d all (updater_round now input rest st es interval g e q) r h i =
      record {
        past = i.past;
        in_order =
            ap (λ l. inputs_of i.past ++ (l ++ own_all s.inbox))
              (posted-append s.mailbox (sizes_sent es)
                ∙ ap (λ l. posted s.mailbox ++ l) (posted-sizes_sent es)
                ∙ append-nil (posted s.mailbox))
            ∙ i.in_order;
        result = i.result;
      }
  Step-HasApplied {s} start_d all (call input p b) r h i = absurd h
  Step-HasApplied {s} start_d all (receive now bytes from msg via p) r h i = absurd h
  Step-HasApplied {s} start_d all (fire before after delay count e) r h i = absurd h
  Step-HasApplied {s} start_d all (fire_aborted before after delay count e) r h i = absurd h
  Step-HasApplied {s} start_d all (gc_fires k e) r h i = absurd h

  Rounds-HasApplied :
      {s t : Node Name Os} {k : ℕ}
      → Reach n codec f api service_name d sockets s
      → Rounds n codec f api service_name d s k t
      → HasApplied s.sender.discoverer (waiting s) t
  Rounds-HasApplied r done = record { past = []; in_order = refl; result = refl }
  Rounds-HasApplied {s = s} r (more rounds step h) =
      Step-HasApplied s.sender.discoverer (waiting s) step
        (Rounds-Reach n codec f api service_name d r rounds) h (Rounds-HasApplied r rounds)

  at_rest : (t : Node Name Os) → IsAtRest t → waiting t ≡ []
  at_rest t rest = ap (λ ms. posted ms ++ own_all t.inbox) rest.1 ∙ ap own_all rest.0

  -- What a node is when the calls on its guard have been handled: each update of the node that waited
  -- before, and then each that these calls send, has been applied once, in this order, to what the
  -- node was, and the response of its sender is the one that `make_response` makes for what it has
  -- become. This takes in every state that a node reaches which the builder has made, every sequence
  -- of calls that add 16-bit ports, and every order in which the actors run until no message waits.
  pub calls-HasApplied :
      {s t : Node Name Os} {k : ℕ} (calls : List Call) (task : ℕ)
      → Built d
      → All AddsPorts (sent_by_all calls)
      → Reach n codec f api service_name d sockets s
      → Rounds n codec f api service_name d
          (with_inbox n codec f api service_name d sockets s (make_all calls (of_task task)).outbox)
          k
          t
      → IsAtRest t
      → (past : List (Instant × GuardianInput)) × (inputs_of past
          ≡ waiting s ++ own_all (sent_by_all calls))
        × (t.sender.discoverer ≡ apply_all past s.sender.discoverer)
        × (make_response n t.sender.discoverer service_name ≡ ok t.sender.response_msg)
  calls-HasApplied {s} {t} calls task built ports r rounds rest =
      let called = make_all-Reached n codec f api service_name d sockets calls task s ports r in
      let i = Rounds-HasApplied called rounds in
      let outbox = (make_all-drop calls (of_task task) task refl).0 in
      let in_order : inputs_of i.past
          ≡ waiting (
              with_inbox n codec f api service_name d sockets s
                (make_all calls (of_task task)).outbox) =
        sym (append-nil (inputs_of i.past))
        ∙ ap (λ l. inputs_of i.past ++ l) (sym (at_rest t rest))
        ∙ i.in_order in
      (
        i.past,
        in_order
            ∙ ap (λ l. posted s.mailbox ++ own_all (s.inbox ++ l)) outbox
            ∙ ap (λ l. posted s.mailbox ++ l) (own_all-append s.inbox (sent_by_all calls))
            ∙ sym (append_assoc (posted s.mailbox) (own_all s.inbox) (own_all (sent_by_all calls))),
        i.result,
        (node-Announces n codec f api service_name d built
            (Rounds-Reach n codec f api service_name d called rounds)).current,
      )
