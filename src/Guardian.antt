-- ===== src/Guardian.antt =====
-- src/guardian.rs: the actor that supervises the others. The mailbox, the supervision of actors and
-- `spawn` are acto's: what comes in is a sequence of events, a spawned receiver an effect, and its
-- `ActoRef` a number that the runtime gives.
pub mod Forwarding
pub mod Receivers
pub mod Interfaces
pub mod Kept
use swarm_discovery.Prelude.{ℕ, Bool, true, false, List, [], ◌∷◌, ◌++◌, Option, none, some, ◌+◌}
use swarm_discovery.Std.HashMap
use swarm_discovery.Std.HashMap.{HashMap}
use swarm_discovery.Std.Net.{IpAddr, v4, v6, ip_ord}
use swarm_discovery.Std.Ord.{nat_ord}
use swarm_discovery.Messages.{
  GuardianInput, remove_all, remove_port, remove_addr, add_addr, set_txt, remove_txt, add_interface,
  remove_interface,
}
use swarm_discovery.Socket.{
  SocketApi, Sockets, Result, good, fail, SocketError, add_interface_v4, remove_interface_v4,
  get_interface_socket_v4, get_all_interface_addresses_v4,
}

-- `ActoInput`, where only the end of an actor is told, not its result.
pub data Event : Type 0 where
  no_more_senders supervision : Event
  message : GuardianInput → Event

-- A message to the sender, and a receiver on a socket.
pub data Effect : Type 0 where
  to_sender : GuardianInput → Effect
  start_receiver : ℕ → Effect

pub record State (Os : Type 0) : Type 0 where
  pub sockets : Sockets
  pub interface_receivers : HashMap IpAddr ℕ
  pub running : Bool
  pub os : Os

module _ {Os : Type 0} (api : SocketApi Os) where
  -- The receiver of an interface, if there is a socket for it.
  unfoldable pub start_interface : ℕ → ℕ → State Os → State Os × List Effect
  unfolding get_interface_socket_v4
  start_interface actor addr st = elim (get_interface_socket_v4 addr st.sockets) [
    | none ↦ (st, [])
    | some socket ↦ (
      record st { interface_receivers = HashMap.insert (v4 addr) actor st.interface_receivers },
      start_receiver socket ∷ [],
    )
  ]

  unfoldable pub add_interface_to : ℕ → IpAddr → State Os → State Os × List Effect
  unfolding add_interface_v4 start_interface
  add_interface_to actor (v6 addr) st = (st, [])
  add_interface_to actor (v4 addr) st =
      let (r, os') = add_interface_v4 api (λ m. m) addr st.sockets st.os in
      elim r [
        | fail e ↦ (record st { os = os' }, [])
        | good sockets' ↦ start_interface actor addr (record st { sockets = sockets'; os = os' })
      ]

  unfoldable pub remove_interface_from : IpAddr → State Os → State Os
  unfolding remove_interface_v4
  remove_interface_from (v6 addr) st = st
  remove_interface_from (v4 addr) st = record st {
    sockets = (remove_interface_v4 addr st.sockets).0;
    interface_receivers = HashMap.remove (v4 addr) st.interface_receivers;
  }

  unfoldable pub handle_input : ℕ → GuardianInput → State Os → State Os × List Effect
  unfolding add_interface_to remove_interface_from
  handle_input actor (add_interface addr) st = add_interface_to actor addr st
  handle_input actor (remove_interface addr) st = (remove_interface_from addr st, [])
  handle_input actor input st = (st, to_sender input ∷ [])

  -- A round of the loop; the first number is the reference of the actor that it may spawn.
  unfoldable pub step : State Os → ℕ × Event → State Os × List Effect
  unfolding handle_input
  step st (actor, no_more_senders) = (st, [])
  step st (actor, supervision) = (record st { running = false }, [])
  step st (actor, message input) = handle_input actor input st

  unfoldable pub run : State Os → List (ℕ × Event) → State Os × List Effect
  unfolding step
  run st [] = (st, [])
  run st (event ∷ events) = elim st.running [
    | false ↦ (st, [])
    | true ↦
        let (st', effects) = step st event in
        let (st'', more) = run st' events in (st'', effects ++ more)
  ]

  -- The receivers of the interfaces that the sockets were created with; each actor has a reference.
  abbrev start_all : ℕ → List ℕ → State Os → State Os × List Effect
  start_all actor [] st = (st, [])
  start_all actor (addr ∷ addrs) st =
      let (st', effects) = start_interface actor addr st in
      let (st'', more) = start_all (actor + 1) addrs st' in (st'', effects ++ more)

  abbrev receiver_of : Option ℕ → List Effect
  receiver_of none = []
  receiver_of (some socket) = start_receiver socket ∷ []

  -- The start of the actor, up to its loop.
  unfoldable pub start : ℕ → Sockets → Os → State Os × List Effect
  unfolding start_interface get_all_interface_addresses_v4
  start actor sockets os =
      let (st, effects) = start_all actor (get_all_interface_addresses_v4 sockets) (record {
        sockets = sockets;
        interface_receivers = HashMap.empty;
        running = true;
        os = os;
      }) in
      (st, receiver_of sockets.v4_socket ++ receiver_of sockets.v6_socket ++ effects)
