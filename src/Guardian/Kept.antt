-- ===== src/Guardian/Kept.antt =====
-- What the guardian of src/guardian.rs leaves alone: the sockets that are not of one interface.
use swarm_discovery.Prelude.{
  ℕ, ◌+◌, ◌≡◌, refl, ◌∙◌, Bool, true, false, List, [], ◌∷◌, some, Option-cases, inl, inr,
  if◌then◌else◌,
}
use swarm_discovery.Std.HashMap
use swarm_discovery.Std.Net.{IpAddr, v4, v6, ip_ord}
use swarm_discovery.Std.Ord.{nat_ord}
use swarm_discovery.Messages.{
  GuardianInput, remove_all, remove_port, remove_addr, add_addr, set_txt, remove_txt, add_interface,
  remove_interface,
}
use swarm_discovery.Socket.{
  SocketApi, Sockets, Result, good, fail, SocketError, socket_v4, add_interface_v4,
  remove_interface_v4, get_interface_socket_v4, get_all_interface_addresses_v4,
}
use swarm_discovery.Guardian.{
  State, Effect, start_interface, start_all, add_interface_to, remove_interface_from, handle_input,
  start,
}

abbrev pub Keeps : Sockets → Sockets → Type 0
Keeps s t = (t.v4_socket ≡ s.v4_socket) × (t.v6_socket ≡ s.v6_socket)

module _ {Os : Type 0} (api : SocketApi Os) where
  abbrev pub KeepsRunning : State Os → State Os → Type 0
  KeepsRunning st st' = Keeps st.sockets st'.sockets × (st'.running ≡ st.running)

  start_interface-Keeps :
      (actor addr : ℕ) (st : State Os) → KeepsRunning st (start_interface api actor addr st).0
  unfolding start_interface
  start_interface-Keeps actor addr st =
      elim (Option-cases (get_interface_socket_v4 addr st.sockets)) [
        | inl e ↦ rw (e, start_interface) ((refl, refl), refl)
        | inr (socket, e) ↦ rw (e, start_interface) ((refl, refl), refl)
      ]

  abbrev Adds : Sockets → Result SocketError Sockets → Type 0
  Adds s (good t) = Keeps s t
  Adds s (fail e) = Unit

  add_interface_v4-Keeps :
      (addr : ℕ) (s : Sockets) (os : Os) → Adds s (add_interface_v4 api (λ m. m) addr s os).0
  unfolding add_interface_v4
  add_interface_v4-Keeps addr s os =
      chosen (HashMap.contains_key addr s.interfaces) (socket_v4 api (some addr) os)
    where
      chosen :
          (known : Bool) (r : Result SocketError ℕ × Os)
          → Adds s
              (if◌then◌else◌ {A = Result SocketError Sockets × Os} known
                (good s, os)
                (elim r.0 as (λ _. Result SocketError Sockets × Os) [
                  | fail e ↦ (fail e, r.1)
                  | good socket ↦ (
                    good (record s {
                      interfaces =
                          if known then s.interfaces else HashMap.insert addr socket s.interfaces;
                    }),
                    r.1,
                  )
                ])).0
      chosen true r = (refl, refl)
      chosen false (good socket, os') = (refl, refl)
      chosen false (fail e, os') = tt

  add_interface_to-Keeps :
      (actor : ℕ) (addr : IpAddr) (st : State Os)
      → KeepsRunning st (add_interface_to api actor addr st).0
  unfolding add_interface_to
  add_interface_to-Keeps actor (v6 addr) st = ((refl, refl), refl)
  add_interface_to-Keeps actor (v4 addr) st =
      added (add_interface_v4 api (λ m. m) addr st.sockets st.os)
        (add_interface_v4-Keeps addr st.sockets st.os)
    where
      added :
          (r : Result SocketError Sockets × Os)
          → Adds st.sockets r.0
          → KeepsRunning st
              (elim r.0 as (λ _. State Os × List Effect) [
                | fail e ↦ (record st { os = r.1 }, [])
                | good sockets' ↦
                    start_interface api actor addr (record st { sockets = sockets'; os = r.1 })
              ]).0
      added (good sockets', os') k =
          let h = start_interface-Keeps actor addr (record st { sockets = sockets'; os = os' }) in
          ((h.0.0 ∙ k.0, h.0.1 ∙ k.1), h.1)
      added (fail e, os') k = ((refl, refl), refl)

  pub handle_input-Keeps :
      (actor : ℕ) (input : GuardianInput) (st : State Os)
      → KeepsRunning st (handle_input api actor input st).0
  unfolding handle_input remove_interface_from remove_interface_v4
  handle_input-Keeps actor (add_interface addr) st = add_interface_to-Keeps actor addr st
  handle_input-Keeps actor (remove_interface (v6 addr)) st = ((refl, refl), refl)
  handle_input-Keeps actor (remove_interface (v4 addr)) st =
      removed (HashMap.contains_key addr st.sockets.interfaces)
    where
      removed :
          (known : Bool)
          → Keeps st.sockets
              (if◌then◌else◌ {A = Sockets × Bool} known
                (record st.sockets { interfaces = HashMap.remove addr st.sockets.interfaces }, true)
                (st.sockets, false)).0
            × (st.running ≡ st.running)
      removed true = ((refl, refl), refl)
      removed false = ((refl, refl), refl)
  handle_input-Keeps actor remove_all st = ((refl, refl), refl)
  handle_input-Keeps actor (remove_port port) st = ((refl, refl), refl)
  handle_input-Keeps actor (remove_addr addr) st = ((refl, refl), refl)
  handle_input-Keeps actor (add_addr port addrs) st = ((refl, refl), refl)
  handle_input-Keeps actor (set_txt key value) st = ((refl, refl), refl)
  handle_input-Keeps actor (remove_txt key) st = ((refl, refl), refl)

  start_all-Keeps :
      (actor : ℕ) (addrs : List ℕ) (st : State Os)
      → KeepsRunning st (start_all api actor addrs st).0
  start_all-Keeps actor [] st = ((refl, refl), refl)
  start_all-Keeps actor (addr ∷ addrs) st =
      let h = start_interface-Keeps actor addr st in
      let k = start_all-Keeps (actor + 1) addrs (start_interface api actor addr st).0 in
      ((k.0.0 ∙ h.0.0, k.0.1 ∙ h.0.1), k.1 ∙ h.1)

  pub start-Keeps :
      (actor : ℕ) (sockets : Sockets) (os : Os)
      → Keeps sockets (start api actor sockets os).0.sockets
        × ((start api actor sockets os).0.running ≡ true)
  unfolding start
  start-Keeps actor sockets os =
      start_all-Keeps actor (get_all_interface_addresses_v4 sockets)
        (record { sockets = sockets; interface_receivers = HashMap.empty; running = true; os = os })
