-- ===== src/Guardian/Interfaces.antt =====
-- The interfaces of a node after the inputs of its guard.
use swarm_discovery.Prelude.{
  ℕ, ◌≡◌, refl, sym, subst, Bool, true, false, List, [], ◌∷◌, ◌++◌, Option, none, some, arith,
  if◌then◌else◌,
}
use swarm_discovery.Std.HashMap
use swarm_discovery.Std.HashSet
use swarm_discovery.Std.HashSet.{HashSet, contains-insert, contains-remove}
use swarm_discovery.Std.Net.{v4, v6, ip_ord}
use swarm_discovery.Std.Ord.{nat_ord}
use swarm_discovery.Messages.{
  GuardianInput, remove_all, remove_port, remove_addr, add_addr, set_txt, remove_txt, add_interface,
  remove_interface,
}
use swarm_discovery.Socket.{
  SocketApi, Sockets, Result, good, fail, SocketError, socket_v4, add_interface_v4,
  remove_interface_v4, get_interface_socket_v4,
}
use swarm_discovery.Guardian.{
  State, Effect, start_receiver, Event, message, start_interface, add_interface_to,
  remove_interface_from, handle_input, step, run,
}
use swarm_discovery.Guardian.Forwarding.{handle_input-GoesOn}

-- The interfaces that a node has joined after some inputs, if none of them fails.
abbrev pub joined : List GuardianInput → HashSet ℕ → HashSet ℕ
joined [] s = s
joined (add_interface (v4 addr) ∷ inputs) s = joined inputs (HashSet.insert addr s)
joined (remove_interface (v4 addr) ∷ inputs) s = joined inputs (HashSet.remove addr s)
joined (_ ∷ inputs) s = joined inputs s

pub joined-append :
    (inputs more : List GuardianInput) (s : HashSet ℕ)
    → joined (inputs ++ more) s ≡ joined more (joined inputs s)
joined-append [] more s = refl
joined-append (add_interface (v4 addr) ∷ inputs) more s =
    joined-append inputs more (HashSet.insert addr s)
joined-append (add_interface (v6 addr) ∷ inputs) more s = joined-append inputs more s
joined-append (remove_interface (v4 addr) ∷ inputs) more s =
    joined-append inputs more (HashSet.remove addr s)
joined-append (remove_interface (v6 addr) ∷ inputs) more s = joined-append inputs more s
joined-append (remove_all ∷ inputs) more s = joined-append inputs more s
joined-append (remove_port port ∷ inputs) more s = joined-append inputs more s
joined-append (remove_addr addr ∷ inputs) more s = joined-append inputs more s
joined-append (add_addr port addrs ∷ inputs) more s = joined-append inputs more s
joined-append (set_txt key value ∷ inputs) more s = joined-append inputs more s
joined-append (remove_txt key ∷ inputs) more s = joined-append inputs more s

-- The inputs as events, each with the reference of the receiver that it may start.
abbrev pub events_of : List (ℕ × GuardianInput) → List (ℕ × Event)
events_of [] = []
events_of ((actor, input) ∷ inputs) = (actor, message input) ∷ events_of inputs

abbrev pub inputs_of : List (ℕ × GuardianInput) → List GuardianInput
inputs_of [] = []
inputs_of ((actor, input) ∷ inputs) = input ∷ inputs_of inputs

module _ {Os : Type 0} (api : SocketApi Os) where
  -- An operating system that creates the socket of every interface.
  abbrev pub Works : Type 0
  Works =
      (addr : ℕ) (os : Os)
      → (socket : ℕ) × (os' : Os) × (socket_v4 api (some addr) os ≡ (good socket, os'))

  -- The node has a socket for the interfaces of the set.
  abbrev pub Has : HashSet ℕ → Sockets → Type 0
  Has s sockets =
      (addr : ℕ) → HashMap.contains_key addr sockets.interfaces ≡ HashSet.contains addr s

  Has-start_interface :
      (s : HashSet ℕ) (actor addr : ℕ) (st : State Os)
      → Has s st.sockets
      → Has s (start_interface api actor addr st).0.sockets
  unfolding start_interface
  Has-start_interface s actor addr st h = started (get_interface_socket_v4 addr st.sockets)
    where
      started :
          (o : Option ℕ)
          → Has s
              (elim o as (λ _. State Os × List Effect) [
                | none ↦ (st, [])
                | some socket ↦ (
                  record st {
                    interface_receivers = HashMap.insert (v4 addr) actor st.interface_receivers;
                  },
                  start_receiver socket ∷ [],
                )
              ]).0.sockets
      started none = h
      started (some socket) = h

  -- What `add_interface_v4` returns.
  abbrev Adds : HashSet ℕ → Result SocketError Sockets × Os → Type 0
  Adds s (good sockets, os) = Has s sockets
  Adds s (fail e, os) = ⊥

  add_interface_v4-Adds :
      (s : HashSet ℕ) (addr : ℕ) (sockets : Sockets) (os : Os)
      → Works
      → Has s sockets
      → Adds (HashSet.insert addr s) (add_interface_v4 api (λ m. m) addr sockets os)
  unfolding add_interface_v4 nat_ord
  add_interface_v4-Adds s addr sockets os works h =
      let (socket, os', created) = works addr os in
      chosen (HashMap.contains_key addr sockets.interfaces) refl (socket_v4 api (some addr) os)
        created
    where
      chosen :
          (known : Bool)
          → HashMap.contains_key addr sockets.interfaces ≡ known
          → (r : Result SocketError ℕ × Os) → r ≡ (good (works addr os).0, (works addr os).1)
          → Adds (HashSet.insert addr s) (
              if known then (good sockets, os) else (elim r.0 [
                | fail e ↦ (fail e, r.1)
                | good socket ↦ (
                  good (record sockets {
                    interfaces =
                        if known
                        then sockets.interfaces
                        else HashMap.insert addr socket sockets.interfaces;
                  }),
                  r.1,
                )
              ]))
      chosen true e r created = λ a. ground (arith, h a, h addr, e, contains-insert a addr s)
      chosen false e (good socket, os') created = λ a. ground (
        arith,
        h a,
        e,
        contains-insert a addr s,
        HashMap.get-insert a addr socket sockets.interfaces,
      )
      chosen false e (fail x, os') created = cc

  Has-add_interface_to :
      (s : HashSet ℕ) (actor addr : ℕ) (st : State Os)
      → Works
      → Has s st.sockets
      → Has (HashSet.insert addr s) (add_interface_to api actor (v4 addr) st).0.sockets
  unfolding add_interface_to
  Has-add_interface_to s actor addr st works h =
      added (add_interface_v4 api (λ m. m) addr st.sockets st.os)
        (add_interface_v4-Adds s addr st.sockets st.os works h)
    where
      added :
          (r : Result SocketError Sockets × Os)
          → Adds (HashSet.insert addr s) r
          → Has
              (HashSet.insert addr s)
              (elim r.0 as (λ _. State Os × List Effect) [
                | fail e ↦ (record st { os = r.1 }, [])
                | good sockets' ↦
                    start_interface api actor addr (record st { sockets = sockets'; os = r.1 })
              ]).0.sockets
      added (good sockets', os') k =
          Has-start_interface (HashSet.insert addr s) actor addr
            (record st { sockets = sockets'; os = os' }) k
      added (fail e, os') k = absurd k

  Has-handle_input :
      (s : HashSet ℕ) (actor : ℕ) (input : GuardianInput) (st : State Os)
      → Works
      → Has s st.sockets
      → Has (joined (input ∷ []) s) (handle_input api actor input st).0.sockets
  unfolding handle_input remove_interface_from remove_interface_v4 nat_ord
  Has-handle_input s actor (add_interface (v4 addr)) st works h =
      Has-add_interface_to s actor addr st works h
  Has-handle_input s actor (add_interface (v6 addr)) st works h = h
  Has-handle_input s actor (remove_interface (v4 addr)) st works h =
      removed (HashMap.contains_key addr st.sockets.interfaces) refl
    where
      removed :
          (known : Bool)
          → HashMap.contains_key addr st.sockets.interfaces ≡ known
          → Has
              (HashSet.remove addr s)
              (if◌then◌else◌ {A = Sockets × Bool} known
                (record st.sockets { interfaces = HashMap.remove addr st.sockets.interfaces }, true)
                (st.sockets, false)).0
      removed true e = λ a.
          ground
            (arith, h a, contains-remove a addr s, HashMap.get-remove a addr st.sockets.interfaces)
      removed false e = λ a. ground (arith, h a, h addr, e, contains-remove a addr s)
  Has-handle_input s actor (remove_interface (v6 addr)) st works h = h
  Has-handle_input s actor remove_all st works h = h
  Has-handle_input s actor (remove_port port) st works h = h
  Has-handle_input s actor (remove_addr addr) st works h = h
  Has-handle_input s actor (add_addr port addrs) st works h = h
  Has-handle_input s actor (set_txt key value) st works h = h
  Has-handle_input s actor (remove_txt key) st works h = h

  -- On an operating system that creates the socket of every interface, and from a set of interfaces
  -- for which a running guardian has sockets, it has sockets, after any inputs of its guard, exactly
  -- for those that these inputs add to this set and do not remove again.
  pub run-Has :
      (inputs : List (ℕ × GuardianInput)) (s : HashSet ℕ) (st : State Os)
      → Works
      → st.running ≡ true
      → Has s st.sockets
      → Has (joined (inputs_of inputs) s) (run api st (events_of inputs)).0.sockets
  unfolding run step
  run-Has [] s st works going h = h
  run-Has ((actor, input) ∷ inputs) s st works going h =
      let st' : State Os = (handle_input api actor input st).0 in
      let later =
        run-Has inputs (joined (input ∷ []) s) st' works
          (handle_input-GoesOn api actor input st going).0
          (Has-handle_input s actor input st works h) in
      rw (going, run)
        (subst (λ t. Has t (run api st' (events_of inputs)).0.sockets)
          (sym (joined-append (input ∷ []) (inputs_of inputs) s)) later)
