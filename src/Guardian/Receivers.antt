-- ===== src/Guardian/Receivers.antt =====
-- The receivers that the guardian starts for interfaces.
use swarm_discovery.Prelude.{
  ℕ, ◌≡◌, refl, ap, ◌∙◌, Bool, true, false, List, [], ◌∷◌, Option, none, some, if◌then◌else◌,
}
use swarm_discovery.Std.HashMap
use swarm_discovery.Std.Net.{v4, ip_ord}
use swarm_discovery.Std.Ord.{nat_ord}
use swarm_discovery.Messages.{add_interface}
use swarm_discovery.Socket.{
  SocketApi, Sockets, SocketError, Result, get_interface_socket_v4, good, fail, add_interface_v4,
}
use swarm_discovery.Guardian.{
  Effect, start_receiver, State, start_interface, add_interface_to, handle_input,
}

module _ {Os : Type 0} (api : SocketApi Os) where
  added_before :
      (addr socket : ℕ) (sockets : Sockets) (os : Os)
      → get_interface_socket_v4 addr sockets ≡ some socket
      → add_interface_v4 api (λ m. m) addr sockets os ≡ (good sockets, os)
  unfolding add_interface_v4 get_interface_socket_v4
  added_before addr socket sockets os known = chosen (HashMap.get addr sockets.interfaces) _ known
    where
      chosen :
          (o : Option ℕ) (created : Result SocketError Sockets × Os)
          → o ≡ some socket
          → (if elim o as (λ _. Bool) [ none ↦ false | some _ ↦ true ]
              then (good sockets, os)
              else created)
            ≡ (good sockets, os)
      chosen none created e = cc
      chosen (some x) created e = refl

  abbrev received_on : ℕ → ℕ → State Os → State Os
  received_on actor addr st = record st {
    interface_receivers = HashMap.insert (v4 addr) actor st.interface_receivers;
  }

  started_again :
      (actor addr socket : ℕ) (st : State Os)
      → get_interface_socket_v4 addr st.sockets ≡ some socket
      → start_interface api actor addr st ≡ (received_on actor addr st, start_receiver socket ∷ [])
  unfolding start_interface
  started_again actor addr socket st known = rw (known, start_interface) refl

  added_again :
      (actor addr socket : ℕ) (st : State Os)
      → get_interface_socket_v4 addr st.sockets ≡ some socket
      → add_interface_to api actor (v4 addr) st ≡ start_interface api actor addr st
  unfolding add_interface_to
  added_again actor addr socket st known =
      ap
        (λ (r : Result SocketError Sockets × Os). elim r.0 as (λ _. State Os × List Effect) [
          | fail e ↦ (record st { os = r.1 }, [])
          | good sockets' ↦
              start_interface api actor addr (record st { sockets = sockets'; os = r.1 })
        ])
        (added_before addr socket st.sockets st.os known)

  -- An interface that has a socket, added again: the socket and what the operating system sees stay
  -- the same, but the guardian starts another receiver on the same socket.
  pub handle_input-again :
      (actor addr socket : ℕ) (st : State Os)
      → get_interface_socket_v4 addr st.sockets ≡ some socket
      → ((handle_input api actor (add_interface (v4 addr)) st).0.sockets ≡ st.sockets)
        × ((handle_input api actor (add_interface (v4 addr)) st).0.os ≡ st.os)
        × ((handle_input api actor (add_interface (v4 addr)) st).1 ≡ start_receiver socket ∷ [])
  unfolding handle_input
  handle_input-again actor addr socket st known =
      let again =
        added_again actor addr socket st known ∙ started_again actor addr socket st known in
      (ap (λ r. r.0.sockets) again, ap (λ r. r.0.os) again, ap (λ r. r.1) again)
