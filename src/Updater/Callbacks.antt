-- ===== src/Updater/Callbacks.antt =====
-- What the application learns through the callback: a peer with addresses is there, one without has
-- gone. The calls, replayed, give the table.
use swarm_discovery.Prelude.{
  ℕ, ◌≡◌, refl, ap, ◌∙◌, false, List, [], ◌∷◌, ◌++◌, if◌then◌else◌, arith, All, Bool-cases, inl,
  inr,
}
use swarm_discovery.Std.BtreeMap
use swarm_discovery.Std.BtreeMap.{BtreeMap, IsOrdered, keys}
use swarm_discovery.Std.BtreeMap.Laws.{remove_head, remove_behind}
use swarm_discovery.Std.Float.{F32, FloatOps}
use swarm_discovery.Std.Ord.{list_ord, nat_ord}
use swarm_discovery.Std.Outcome.{Outcome, ok, panic, ◌>>=◌, Outcome-cases}
use swarm_discovery.Std.Sort.{Below, retain}
use swarm_discovery.Std.Text.{Str, is_empty}
use swarm_discovery.Std.Time.{Duration, Instant}
use swarm_discovery.Messages.{UpdaterInput, peers, gc, size_subscription}
use swarm_discovery.Peer.{Peer, is_expiry}
use swarm_discovery.Updater.{
  State, Effect, callback, send, start_gc, notify, subs_of, insert_peers, collect, handle_input,
  run, kept, expiries, is_fresh, grace_period,
}
use swarm_discovery.Updater.Sizes.{IsValid, insert_peers-IsValid, kept-IsOrdered, subscribe-IsValid}

-- An application that keeps a table of its own by the calls.
unfoldable pub replay : List Effect → BtreeMap Str Peer → BtreeMap Str Peer
replay [] m = m
replay (callback id peer ∷ effects) m =
    replay effects (if is_expiry peer then BtreeMap.remove id m else BtreeMap.insert id peer m)
replay (send sub size ∷ effects) m = replay effects m
replay (start_gc interval ∷ effects) m = replay effects m

replay-append :
    (xs ys : List Effect) (m : BtreeMap Str Peer) → replay (xs ++ ys) m ≡ replay ys (replay xs m)
unfolding replay
replay-append [] ys m = refl
replay-append (callback id peer ∷ xs) ys m =
    replay-append xs ys (if is_expiry peer then BtreeMap.remove id m else BtreeMap.insert id peer m)
replay-append (send sub size ∷ xs) ys m = replay-append xs ys m
replay-append (start_gc interval ∷ xs) ys m = replay-append xs ys m

replay-notify : (subs : List ℕ) (size : ℕ) (m : BtreeMap Str Peer) → replay (notify subs size) m ≡ m
unfolding replay notify
replay-notify [] size m = refl
replay-notify (s ∷ subs) size m = replay-notify subs size m

-- The peers of a response have addresses.
abbrev pub AreFound : BtreeMap Str Peer → Type 0
AreFound msg = All (λ (e : Str × Peer). is_expiry e.1 ≡ false) msg

replay-insert_peers :
    (msg : BtreeMap Str Peer) (st : State)
    → AreFound msg
    → replay (insert_peers msg st).1 st.table ≡ (insert_peers msg st).0.table
unfolding insert_peers replay
replay-insert_peers [] st h = refl
replay-insert_peers ((id, peer) ∷ rest) st h =
    let st' : State = record st { table = BtreeMap.insert id peer st.table } in
    let news : List Effect =
      if BtreeMap.contains_key id st.table
      then []
      else notify (subs_of st) (BtreeMap.len st'.table) in
    rw (h.0, replay)
      (replay-append news (insert_peers rest st').1 st'.table
        ∙ ap (replay (insert_peers rest st').1)
            (ground (arith, replay-notify (subs_of st) (BtreeMap.len st'.table) st'.table))
        ∙ replay-insert_peers rest st' h.1)

-- The calls for the entries behind the first leave it alone.
replay-expiries_behind :
    (now : Instant) (grace : Duration) (id : Str) (peer : Peer) (rest m : BtreeMap Str Peer)
    → Below id (keys rest)
    → replay (expiries now grace rest) ((id, peer) ∷ m)
      ≡ (id, peer) ∷ replay (expiries now grace rest) m
unfolding expiries replay is_expiry
replay-expiries_behind now grace id peer [] m b = refl
replay-expiries_behind now grace id peer ((j, p) ∷ rest) m b =
    elim (Bool-cases (is_fresh now grace p)) [
      | inl fresh ↦ rw (fresh, expiries) (replay-expiries_behind now grace id peer rest m b.1)
      | inr stale ↦
          rw (stale, expiries)
            (ap (replay (expiries now grace rest)) (remove_behind id j peer m b.0)
              ∙ replay-expiries_behind now grace id peer rest (BtreeMap.remove j m) b.1)
    ]

replay-expiries :
    (now : Instant) (grace : Duration) (table : BtreeMap Str Peer)
    → IsOrdered table
    → replay (expiries now grace table) table ≡ kept now grace table
unfolding expiries kept replay retain is_expiry
replay-expiries now grace [] o = refl
replay-expiries now grace ((id, peer) ∷ rest) o = elim (Bool-cases (is_fresh now grace peer)) [
  | inl fresh ↦
      rw (fresh, expiries, retain)
        (replay-expiries_behind now grace id peer rest rest o.0
          ∙ ap (◌∷◌ (id, peer)) (replay-expiries now grace rest o.1))
  | inr stale ↦
      rw (stale, expiries, retain)
        (ap (replay (expiries now grace rest)) (remove_head id peer rest)
          ∙ replay-expiries now grace rest o.1)
]

abbrev pub FoundInput : UpdaterInput → Type 0
FoundInput (peers msg) = AreFound msg
FoundInput _ = Unit

-- The calls, replayed from the table before, give the table after. (After a panic there is none.)
abbrev pub Mirrors : BtreeMap Str Peer → Outcome (State × List Effect) → Type 0
Mirrors table (ok (st, effects)) = IsValid st × (replay effects table ≡ st.table)
Mirrors table panic = Unit

Mirrors-append :
    (table : BtreeMap Str Peer) (effects : List Effect) (r : Outcome (State × List Effect))
    → Mirrors (replay effects table) r
    → Mirrors table (r >>= λ q. ok (q.0, effects ++ q.1))
Mirrors-append table effects (ok q) h = (h.0, replay-append effects q.1 table ∙ h.1)
Mirrors-append table effects panic h = tt

collect-Mirrors :
    (f : FloatOps) (tau : Duration) (phi : F32) (now : Instant) (st : State)
    → IsValid st
    → Mirrors st.table (collect f tau phi now st)
unfolding collect
collect-Mirrors f tau phi now st v =
    elim (Outcome-cases (grace_period f tau phi (BtreeMap.len st.table))) [
      | inl (grace, e) ↦
          rw (e, collect)
            (
              record {
                table_ordered = kept-IsOrdered now grace st.table v.table_ordered;
                subscribers_ordered = v.subscribers_ordered;
              },
              replay-append (expiries now grace st.table) _ st.table
                  ∙ replay-notify (subs_of st) _ _
                  ∙ replay-expiries now grace st.table v.table_ordered,
            )
      | inr e ↦ rw (e, collect) tt
    ]

pub handle_input-Mirrors :
    (f : FloatOps) (tau : Duration) (phi : F32) (interval : Duration) (now : Instant) (st : State)
    (input : UpdaterInput)
    → IsValid st
    → FoundInput input
    → Mirrors st.table (handle_input f tau phi interval now st input)
unfolding handle_input replay
handle_input-Mirrors f tau phi interval now st (peers msg) v found =
    (insert_peers-IsValid msg st v, replay-insert_peers msg st found)
handle_input-Mirrors f tau phi interval now st gc v found = elim (Bool-cases (is_empty st.table)) [
  | inl nobody ↦ rw nobody (v, refl)
  | inr some_left ↦ rw some_left (
      Mirrors-append st.table (start_gc interval ∷ []) (collect f tau phi now st)
        (collect-Mirrors f tau phi now st v))
]
handle_input-Mirrors f tau phi interval now st (size_subscription s) v found =
    (subscribe-IsValid s st v, refl)

-- From a state whose table and subscribers are ordered, an application that keeps what the
-- callback gave it, and drops what the callback gave it without addresses, holds the table of the
-- updater after any messages, if those from the receivers hold peers with addresses only. The
-- state stays ordered. (Nothing is said of a run in which the updater panics.)
pub run-Mirrors :
    (f : FloatOps) (tau : Duration) (phi : F32) (interval : Duration)
    (inputs : List (Instant × UpdaterInput)) (st : State)
    → IsValid st
    → All (λ (e : Instant × UpdaterInput). FoundInput e.1) inputs
    → Mirrors st.table (run f tau phi interval st inputs)
unfolding run replay
run-Mirrors f tau phi interval [] st v found = (v, refl)
run-Mirrors f tau phi interval ((now, input) ∷ inputs) st v found =
    elim (Outcome-cases (handle_input f tau phi interval now st input)) [
      | inl (p, q) ↦
          let h = rw q at (handle_input-Mirrors f tau phi interval now st input v found.0) in
          rw (q, run)
            (Mirrors-append st.table p.1 (run f tau phi interval p.0 inputs)
              (rw h.1 (run-Mirrors f tau phi interval inputs p.0 h.0 found.1)))
      | inr q ↦ rw (q, run) tt
    ]
