-- ===== src/Guardian/Forwarding.antt =====
-- What the guardian hands on to the sender.
use swarm_discovery.Prelude.{
  ℕ, ◌≡◌, refl, ap, ◌∙◌, Bool, true, false, List, [], ◌∷◌, ◌++◌, arith, Option-cases, inl, inr, All,
  All-append,
}
use swarm_discovery.Std.Net.{IpAddr, v4, v6}
use swarm_discovery.Messages.{
  GuardianInput, remove_all, remove_port, remove_addr, add_addr, set_txt, remove_txt, add_interface,
  remove_interface,
}
use swarm_discovery.Socket.{
  SocketApi, Sockets, SocketError, Result, get_interface_socket_v4, good, fail, add_interface_v4,
}
use swarm_discovery.Sender.Current.{IsForwarded}
use swarm_discovery.Guardian.{
  Event, no_more_senders, supervision, message, Effect, to_sender, start_receiver, State,
  start_interface, add_interface_to, remove_interface_from, handle_input, step, run,
}

-- The messages to the sender among the effects.
abbrev pub sent : List Effect → List GuardianInput
sent [] = []
sent (to_sender input ∷ es) = input ∷ sent es
sent (start_receiver socket ∷ es) = sent es

abbrev pub own : GuardianInput → List GuardianInput
own (add_interface addr) = []
own (remove_interface addr) = []
own input = input ∷ []

-- The updates of the node itself, up to the first end of a supervised actor.
abbrev pub updates : List (ℕ × Event) → List GuardianInput
updates [] = []
updates ((actor, no_more_senders) ∷ events) = updates events
updates ((actor, supervision) ∷ events) = []
updates ((actor, message input) ∷ events) = own input ++ updates events

sent-append : (es more : List Effect) → sent (es ++ more) ≡ sent es ++ sent more
sent-append [] more = refl
sent-append (to_sender input ∷ es) more = ap (λ l. input ∷ l) (sent-append es more)
sent-append (start_receiver socket ∷ es) more = sent-append es more

own-IsForwarded : (input : GuardianInput) → All IsForwarded (own input)
own-IsForwarded = ground arith

append-IsForwarded :
    (xs ys : List GuardianInput)
    → All IsForwarded xs
    → All IsForwarded ys
    → All IsForwarded (xs ++ ys)
append-IsForwarded = All-append IsForwarded

pub updates-IsForwarded : (events : List (ℕ × Event)) → All IsForwarded (updates events)
updates-IsForwarded [] = tt
updates-IsForwarded ((actor, no_more_senders) ∷ events) = updates-IsForwarded events
updates-IsForwarded ((actor, supervision) ∷ events) = tt
updates-IsForwarded ((actor, message input) ∷ events) =
    append-IsForwarded (own input) (updates events) (own-IsForwarded input)
      (updates-IsForwarded events)

module _ {Os : Type 0} (api : SocketApi Os) where
  -- What a step does with the running guardian: it hands on `inputs` and goes on.
  abbrev pub GoesOn : List GuardianInput → State Os × List Effect → Type 0
  GoesOn inputs (st, es) = (st.running ≡ true) × (sent es ≡ inputs)

  start_interface-GoesOn :
      (actor addr : ℕ) (st : State Os)
      → st.running ≡ true
      → GoesOn [] (start_interface api actor addr st)
  unfolding start_interface
  start_interface-GoesOn actor addr st going =
      elim (Option-cases (get_interface_socket_v4 addr st.sockets)) [
        | inl e ↦ rw (e, start_interface) (going, refl)
        | inr (socket, e) ↦ rw (e, start_interface) (going, refl)
      ]

  add_interface_to-GoesOn :
      (actor : ℕ) (addr : IpAddr) (st : State Os)
      → st.running ≡ true
      → GoesOn [] (add_interface_to api actor addr st)
  unfolding add_interface_to
  add_interface_to-GoesOn actor (v6 addr) st going = (going, refl)
  add_interface_to-GoesOn actor (v4 addr) st going =
      after_adding (add_interface_v4 api (λ m. m) addr st.sockets st.os)
    where
      after_adding :
          (r : Result SocketError Sockets × Os)
          → GoesOn [] (elim r.0 [
            | fail e ↦ (record st { os = r.1 }, [])
            | good sockets' ↦
                start_interface api actor addr (record st { sockets = sockets'; os = r.1 })
          ])
      after_adding (good sockets', os') =
          start_interface-GoesOn actor addr (record st { sockets = sockets'; os = os' }) going
      after_adding (fail e, os') = (going, refl)

  pub handle_input-GoesOn :
      (actor : ℕ) (input : GuardianInput) (st : State Os)
      → st.running ≡ true
      → GoesOn (own input) (handle_input api actor input st)
  unfolding handle_input remove_interface_from
  handle_input-GoesOn actor (add_interface addr) st going =
      add_interface_to-GoesOn actor addr st going
  handle_input-GoesOn actor (remove_interface (v4 addr)) st going = (going, refl)
  handle_input-GoesOn actor (remove_interface (v6 addr)) st going = (going, refl)
  handle_input-GoesOn actor remove_all st going = (going, refl)
  handle_input-GoesOn actor (remove_port port) st going = (going, refl)
  handle_input-GoesOn actor (remove_addr addr) st going = (going, refl)
  handle_input-GoesOn actor (add_addr port addrs) st going = (going, refl)
  handle_input-GoesOn actor (set_txt key value) st going = (going, refl)
  handle_input-GoesOn actor (remove_txt key) st going = (going, refl)

  stopped_run :
      (st : State Os) (events : List (ℕ × Event))
      → st.running ≡ false
      → sent (run api st events).1 ≡ []
  unfolding run
  stopped_run st [] e = refl
  stopped_run st (event ∷ events) e = rw (e, run) refl

  running_run :
      (st : State Os) (event : ℕ × Event) (events : List (ℕ × Event))
      → st.running ≡ true
      → sent (run api st (event ∷ events)).1
        ≡ sent (step api st event).1 ++ sent (run api (step api st event).0 events).1
  unfolding run
  running_run st event events e = chosen st.running e
    where
      chosen :
          (b : Bool)
          → b ≡ true
          → sent
              (elim b as (λ _. State Os × List Effect) [
                | false ↦ (st, [])
                | true ↦ (
                  (run api (step api st event).0 events).0,
                  (step api st event).1 ++ (run api (step api st event).0 events).1,
                )
              ]).1
            ≡ sent (step api st event).1 ++ sent (run api (step api st event).0 events).1
      chosen true e = sent-append (step api st event).1 (run api (step api st event).0 events).1
      chosen false e = cc

  -- What a running guardian hands on to the sender, whatever happens to the sockets: the updates of
  -- the node that it receives, in their order, and no update of the interfaces, up to the first end of
  -- a supervised actor.
  pub run-sent :
      (st : State Os) (events : List (ℕ × Event))
      → st.running ≡ true
      → (sent (run api st events).1 ≡ updates events) × All IsForwarded (sent (run api st events).1)
  unfolding step run
  run-sent st events going =
      let same = sent_updates st events going in (same, rw same (updates-IsForwarded events))
    where
      sent_updates :
          (st : State Os) (events : List (ℕ × Event))
          → st.running ≡ true
          → sent (run api st events).1 ≡ updates events
      sent_updates st [] going = refl
      sent_updates st ((actor, no_more_senders) ∷ events) going =
          running_run st (actor, no_more_senders) events going ∙ sent_updates st events going
      sent_updates st ((actor, supervision) ∷ events) going =
          running_run st (actor, supervision) events going
          ∙ stopped_run (record st { running = false }) events refl
      sent_updates st ((actor, message input) ∷ events) going =
          let kept = handle_input-GoesOn actor input st going in
          running_run st (actor, message input) events going
          ∙ ap (λ l. l ++ sent (run api (handle_input api actor input st).0 events).1) kept.1
          ∙ ap (λ l. own input ++ l)
              (sent_updates (handle_input api actor input st).0 events kept.0)
