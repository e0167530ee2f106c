-- ===== src/Sender/Going.antt =====
-- The sender goes on, whatever updates of its node come in.
use swarm_discovery.Prelude.{
  ℕ, ◌*◌, ◌<◌, ◌≤◌, ◌≡◌, refl, sym, subst, ◌∙◌, List, [], ◌∷◌, Option, All,
}
use swarm_discovery.Std.BtreeMap.Laws.{AllValues}
use swarm_discovery.Std.Float.{FloatOps}
use swarm_discovery.Std.Ord.{list_ord, nat_ord}
use swarm_discovery.Std.Outcome.{Outcome, ok, panic, ◌>>=◌}
use swarm_discovery.Std.Text.{Str}
use swarm_discovery.Std.Time.{Instant}
use swarm_discovery.Discoverer.{Discoverer, update_me}
use swarm_discovery.Dns.{NameApi, Message}
use swarm_discovery.Messages.{
  GuardianInput, query_v4, query_v6, response, timeout, size_update, update, remove_all,
  remove_port, remove_addr, add_addr, set_txt, remove_txt, add_interface, remove_interface,
}
use swarm_discovery.Peer.{Mode}
use swarm_discovery.Sender.Delay.{response_delay}
use swarm_discovery.Sender.Invariant.{AllowedMsg, EnsuresUpdate, dispatch-Holds}
use swarm_discovery.Sender.Machine.{
  Phase, querying, responding, stopped, State, Effect, ActorInput, message, no_more_senders,
  Environment, Step, after, cut_of, apply_update, while_querying, while_responding, dispatch, step,
  run,
}
use swarm_discovery.Sender.Ports.{
  HasPorts, AddsPorts, update_peers-HasPorts, updated_response-Makes,
}
use swarm_discovery.Sender.Progress.{Succeeds, IsNoUpdate, dispatch-Succeeds}
use swarm_discovery.Sender.Response.{update_peers, updated_response, update_response}
use swarm_discovery.Sender.Traces.{Ensures}
use swarm_discovery.Wire.Names.{ServiceNames}

module _ {Name : Type 0} (n : NameApi Name) (f : FloatOps) (service_name : Name) (peer_id : Str)
    (names : ServiceNames n peer_id service_name) where
  -- The node has the identifier, and 16-bit ports.
  abbrev IsOwn : Discoverer → Option (Message Name) → Type 0
  IsOwn d r = (d.peer_id ≡ peer_id) × AllValues HasPorts d.peers

  -- An update leaves the identifier, the cadence and the rate.
  pub update_peers_kept :
      (now : Instant) (input : GuardianInput) (d : Discoverer)
      → let d' = update_peers now input d in
        (d'.peer_id ≡ d.peer_id) × (d'.tau ≡ d.tau) × (d'.phi ≡ d.phi)
  unfolding update_peers update_me
  update_peers_kept now remove_all d = (refl, refl, refl)
  update_peers_kept now (remove_port port) d = (refl, refl, refl)
  update_peers_kept now (remove_addr addr) d = (refl, refl, refl)
  update_peers_kept now (add_addr port addrs) d = (refl, refl, refl)
  update_peers_kept now (set_txt key value) d = (refl, refl, refl)
  update_peers_kept now (remove_txt key) d = (refl, refl, refl)
  update_peers_kept now (add_interface addr) d = (refl, refl, refl)
  update_peers_kept now (remove_interface addr) d = (refl, refl, refl)

  update_response-IsOwn :
      (now : Instant) (d : Discoverer) (r : Option (Message Name)) (input : GuardianInput)
      → AddsPorts input
      → IsOwn d r
      → EnsuresUpdate IsOwn (update_response n now d service_name input)
  unfolding update_response
  update_response-IsOwn now d r input b h =
      made (updated_response n input (update_peers now input d) service_name)
    where
      made :
          (m : Outcome (Option (Message Name)))
          → EnsuresUpdate IsOwn (m >>= λ r'. ok (update_peers now input d, r'))
      made (ok r') =
          ((update_peers_kept now input d).0 ∙ h.0, update_peers-HasPorts now input d b h.1)
      made panic = tt

  -- Sending does not panic, and an update that adds addresses has a 16-bit port.
  abbrev pub IsSafe : Environment Name × ActorInput → Type 0
  IsSafe (env, input) =
      ((msg : Message Name) (mode : Mode) → env.send_msg msg mode ≡ ok tt)
      × AllowedMsg AddsPorts input

  -- No panic, and what the next round relies on.
  pub record IsReady (c : ℕ) (st : State Name) : Type 0 where
    pub small : st.extra_delay ≤ 10 * response_delay
    pub cut : cut_of n f service_name st ≡ c
    pub same_id : st.discoverer.peer_id ≡ peer_id
    pub ports : AllValues HasPorts st.discoverer.peers

  abbrev pub GoesOn : ℕ → Step Name → Type 0
  GoesOn c (ok (st, es)) = IsReady c st
  GoesOn c panic = ⊥

  apply_update-Succeeds :
      (env : Environment Name) (input : GuardianInput) (st : State Name) (c : ℕ)
      → AddsPorts input
      → IsReady c st
      → Succeeds n f service_name c (apply_update n f service_name env input st)
  unfolding apply_update update_response
  apply_update-Succeeds env input st c b h =
      let kept = update_peers_kept env.now input st.discoverer in
      let (r, e) =
        updated_response-Makes n service_name peer_id names input
          (update_peers env.now input st.discoverer) (kept.0 ∙ h.same_id)
          (update_peers-HasPorts env.now input st.discoverer b h.ports) in
      rw (e, update_response) (h.small, rw (kept.1, kept.2) h.cut)

  unless_update :
      (env : Environment Name) (phase : Phase) (input : ActorInput) (st : State Name) (c : ℕ)
      → 0 < c
      → ((msg : Message Name) (mode : Mode) → env.send_msg msg mode ≡ ok tt)
      → IsNoUpdate n f service_name input
      → IsReady c st
      → Succeeds n f service_name c (dispatch n f service_name env phase input st)
  unless_update env phase input st c positive sends other h =
      subst (λ k. Succeeds n f service_name k (dispatch n f service_name env phase input st)) h.cut
        (dispatch-Succeeds n f service_name env sends st h.small
          (subst (λ k. 0 < k) (sym h.cut) positive) phase input other)

  dispatch-Succeeds_again :
      (env : Environment Name) (phase : Phase) (input : ActorInput) (st : State Name) (c : ℕ)
      → 0 < c
      → IsSafe (env, input)
      → IsReady c st
      → Succeeds n f service_name c (dispatch n f service_name env phase input st)
  unfolding dispatch while_querying while_responding
  dispatch-Succeeds_again env querying (message (update input)) st c p s h =
      apply_update-Succeeds env input st c s.1 h
  dispatch-Succeeds_again env (responding mode heard) (message (update input)) st c p s h =
      apply_update-Succeeds env input st c s.1 h
  dispatch-Succeeds_again env stopped (message (update input)) st c p s h = (h.small, h.cut)
  dispatch-Succeeds_again env phase no_more_senders st c p s h =
      unless_update env phase no_more_senders st c p s.0 tt h
  dispatch-Succeeds_again env phase (message query_v4) st c p s h =
      unless_update env phase (message query_v4) st c p s.0 tt h
  dispatch-Succeeds_again env phase (message query_v6) st c p s h =
      unless_update env phase (message query_v6) st c p s.0 tt h
  dispatch-Succeeds_again env phase (message (response m)) st c p s h =
      unless_update env phase (message (response m)) st c p s.0 tt h
  dispatch-Succeeds_again env phase (message (timeout k)) st c p s h =
      unless_update env phase (message (timeout k)) st c p s.0 tt h
  dispatch-Succeeds_again env phase (message (size_update k)) st c p s h =
      unless_update env phase (message (size_update k)) st c p s.0 tt h

  ready_again :
      (c : ℕ) (r : Step Name)
      → Succeeds n f service_name c r
      → Ensures (λ st es. IsOwn st.discoverer st.response_msg) r
      → GoesOn c r
  ready_again c (ok (st, es)) h own = record {
    small = h.0;
    cut = h.1;
    same_id = own.0;
    ports = own.1;
  }
  ready_again c panic h own = absurd h

  pub dispatch-GoesOn :
      (env : Environment Name) (input : ActorInput) (st : State Name) (c : ℕ)
      → 0 < c
      → IsSafe (env, input)
      → IsReady c st
      → GoesOn c (dispatch n f service_name env st.phase input st)
  dispatch-GoesOn env input st c p s h =
      ready_again c (dispatch n f service_name env st.phase input st)
        (dispatch-Succeeds_again env st.phase input st c p s h)
        (dispatch-Holds n f service_name IsOwn AddsPorts update_response-IsOwn env st.phase input st
          s.1 (h.same_id, h.ports))

  -- Where the names of the service parse as `ServiceNames` says, and the node has 16-bit ports, a
  -- positive cutoff and an extra delay of a second at most, the sender goes through any run without a
  -- panic, whatever messages and updates of the node come in, as long as sending does not panic and
  -- added ports are 16-bit numbers; and all this still holds at its end, with the same cutoff.
  pub run-GoesOn :
      (inputs : List (Environment Name × ActorInput)) (st : State Name) (c : ℕ)
      → 0 < c
      → All IsSafe inputs
      → IsReady c st
      → GoesOn c (run n f service_name st inputs)
  unfolding run step
  run-GoesOn [] st c p s h = h
  run-GoesOn ((env, input) ∷ inputs) st c p s h =
      go_on (dispatch n f service_name env st.phase input st)
        (dispatch-GoesOn env input st c p s.0 h) (λ st' h'. run-GoesOn inputs st' c p s.1 h')
    where
      later : (es : List (Effect Name)) (r : Step Name) → GoesOn c r → GoesOn c (after es r)
      later es (ok (st', more)) k = k
      later es panic k = absurd k

      go_on :
          (r : Step Name)
          → GoesOn c r
          → ((st' : State Name) → IsReady c st' → GoesOn c (run n f service_name st' inputs))
          → GoesOn c (r >>= λ q. after q.1 (run n f service_name q.0 inputs))
      go_on (ok (st', es)) k rec = later es (run n f service_name st' inputs) (rec st' k)
      go_on panic k rec = absurd k
