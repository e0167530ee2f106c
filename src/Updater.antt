-- ===== src/Updater.antt =====
-- src/updater.rs: the actor that holds the table of the peers, tells the application of each
-- observation, prunes what was not seen for too long, and tells subscribers the size of the swarm.
pub mod Sizes
pub mod Callbacks
pub mod Expiry
use swarm_discovery.Prelude.{
  ℕ, ◌+◌, ◌/◌, Bool, true, false, not, List, [], ◌∷◌, ◌++◌, Option, none, some, if◌then◌else◌, ltb,
}
use swarm_discovery.Std.BtreeMap
use swarm_discovery.Std.BtreeMap.{BtreeMap}
use swarm_discovery.Std.Float.{F32, FloatOps, three}
use swarm_discovery.Std.Ord.{list_ord, nat_ord}
use swarm_discovery.Std.Outcome.{Outcome, ok, panic, ◌>>=◌}
use swarm_discovery.Std.Sort.{retain}
use swarm_discovery.Std.Text.{Str, is_empty}
use swarm_discovery.Std.Time.{
  Duration, Instant, from_millis, mul_u32, div_u32, checked_duration_since,
}
use swarm_discovery.Messages.{UpdaterInput, peers, gc, size_subscription}
use swarm_discovery.Peer.{Peer}

-- `subscribers` is a set of actor references.
pub record State : Type 0 where
  pub table : BtreeMap Str Peer
  pub subscribers : BtreeMap ℕ (Unit {0})

-- A call of the callback, a size sent to a subscriber, and the start of a timer for the next `GC`.
pub data Effect : Type 0 where
  callback : Str → Peer → Effect
  send : ℕ → ℕ → Effect
  start_gc : Duration → Effect

abbrev pub initial : State
initial = record { table = BtreeMap.empty; subscribers = BtreeMap.empty }

-- The sleeps of `gc`, given whether each send arrives: it tries again every ten milliseconds.
unfoldable pub gc_sleeps : Duration → List Bool → List Duration
gc_sleeps interval [] = interval ∷ []
gc_sleeps interval (true ∷ sends) = interval ∷ []
gc_sleeps interval (false ∷ sends) = interval ∷ gc_sleeps (from_millis 10) sends

unfoldable pub gc_interval : Duration → Outcome Duration
gc_interval tau = do product ← mul_u32 tau 12345; div_u32 product 9999

unfoldable pub notify : List ℕ → ℕ → List Effect
notify [] size = []
notify (sub ∷ subs) size = send sub size ∷ notify subs size

abbrev pub subs_of : State → List ℕ
subs_of st = BtreeMap.keys st.subscribers

-- The loop of `Input::Peers`.
unfoldable pub insert_peers : BtreeMap Str Peer → State → State × List Effect
unfolding notify
insert_peers [] st = (st, [])
insert_peers ((id, peer) ∷ rest) st =
    let st' : State = record st { table = BtreeMap.insert id peer st.table } in
    let (last, effects) = insert_peers rest st' in
    let news : List Effect =
      if BtreeMap.contains_key id st.table
      then []
      else notify (subs_of st) (BtreeMap.len st'.table) in
    (last, callback id peer ∷ news ++ effects)

unfoldable pub grace_period : FloatOps → Duration → F32 → ℕ → Outcome Duration
grace_period f tau phi swarm_size =
    let expected_frequency =
      f.div (f.min (f.ceil (f.mul (f.as_secs_f32 tau) phi)) (f.from_usize swarm_size))
        (f.as_secs_f32 tau) in
    let frequency_per_peer = f.div expected_frequency (f.from_usize swarm_size) in
    f.from_secs_f32 (f.div three frequency_per_peer)

-- `keep`: the age, which is zero for an instant to come, is below the grace period.
unfoldable pub is_fresh : Instant → Duration → Peer → Bool
is_fresh now grace peer = elim (checked_duration_since now peer.last_seen) [
  | none ↦ ltb 0 grace
  | some age ↦ ltb age grace
]

abbrev pub expired : Peer → Peer
expired peer = record { addrs = []; last_seen = peer.last_seen; txt = BtreeMap.empty }

-- The callbacks that `retain` makes, in the order of the table.
unfoldable pub expiries : Instant → Duration → BtreeMap Str Peer → List Effect
unfolding is_fresh
expiries now grace [] = []
expiries now grace ((id, peer) ∷ rest) =
    let others = expiries now grace rest in
    if is_fresh now grace peer then others else callback id (expired peer) ∷ others

unfoldable pub kept : Instant → Duration → BtreeMap Str Peer → BtreeMap Str Peer
unfolding is_fresh
kept now grace = retain λ e. is_fresh now grace e.1

-- The part of `Input::GC` behind the early `continue`.
unfoldable pub collect : FloatOps → Duration → F32 → Instant → State → Outcome (State × List Effect)
unfolding grace_period expiries kept notify
collect f tau phi now st = do
  grace ← grace_period f tau phi (BtreeMap.len st.table)
  let table' = kept now grace st.table
  ok (
    record st { table = table' },
    expiries now grace st.table ++ notify (subs_of st) (BtreeMap.len table'),
  )

-- One round of the loop, at the time `now`.
unfoldable pub handle_input :
    FloatOps
    → Duration
    → F32
    → Duration
    → Instant
    → State
    → UpdaterInput
    → Outcome (State × List Effect)
unfolding insert_peers collect
handle_input f tau phi interval now st (peers msg) = ok (insert_peers msg st)
handle_input f tau phi interval now st gc =
    if is_empty st.table
    then ok (st, start_gc interval ∷ [])
    else do (st', effects) ← collect f tau phi now st; ok (st', start_gc interval ∷ effects)
handle_input f tau phi interval now st (size_subscription sub) =
    ok (record st { subscribers = BtreeMap.insert sub tt st.subscribers }, [])

-- The loop, over the messages with the times at which they are handled.
unfoldable pub run :
    FloatOps
    → Duration
    → F32
    → Duration
    → State
    → List (Instant × UpdaterInput)
    → Outcome (State × List Effect)
unfolding handle_input
run f tau phi interval st [] = ok (st, [])
run f tau phi interval st ((now, input) ∷ inputs) = do
  (st', effects) ← handle_input f tau phi interval now st input
  (last, more) ← run f tau phi interval st' inputs
  ok (last, effects ++ more)

unfoldable pub updater :
    FloatOps → Duration → F32 → List (Instant × UpdaterInput) → Outcome (State × List Effect)
unfolding gc_interval run
updater f tau phi inputs = do
  interval ← gc_interval tau
  (last, effects) ← run f tau phi interval initial inputs
  ok (last, start_gc interval ∷ effects)
