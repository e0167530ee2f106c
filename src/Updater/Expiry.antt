-- ===== src/Updater/Expiry.antt =====
-- Which peers `Input::GC` prunes, and of which the callback is told.
use swarm_discovery.Prelude.{
  ℕ, ◌≡◌, refl, ◌∙◌, eq, Bool, false, not, ◌||◌, List, [], ◌∷◌, ◌++◌, Option, none, some,
  if◌then◌else◌, ltb, arith, All-imp,
}
use swarm_discovery.Std.BtreeMap
use swarm_discovery.Std.BtreeMap.{BtreeMap, IsOrdered, keys}
use swarm_discovery.Std.BtreeMap.Laws.{get-retain}
use swarm_discovery.Std.Float.{F32, FloatOps}
use swarm_discovery.Std.Ord.{list_ord, nat_ord, is_eq}
use swarm_discovery.Std.Outcome.{Outcome, ok}
use swarm_discovery.Std.Sort.{Below}
use swarm_discovery.Std.Text.{Str, is_empty}
use swarm_discovery.Std.Time.{Duration, Instant}
use swarm_discovery.Messages.{gc}
use swarm_discovery.Peer.{Peer, is_expiry, age}
use swarm_discovery.Updater.{
  State, Effect, callback, send, start_gc, notify, subs_of, collect, handle_input, kept, expiries,
  is_fresh, grace_period,
}

-- Whether the callback is told that the peer has gone.
pub told_gone : Str → List Effect → Bool
told_gone id [] = false
told_gone id (callback j peer ∷ effects) =
    if is_expiry peer
    then is_eq ((list_ord {A = ℕ}).cmp id j) || told_gone id effects
    else told_gone id effects
told_gone id (send sub size ∷ effects) = told_gone id effects
told_gone id (start_gc interval ∷ effects) = told_gone id effects

told_gone-append :
    (id : Str) (xs ys : List Effect)
    → told_gone id (xs ++ ys) ≡ (told_gone id xs || told_gone id ys)
unfolding told_gone
told_gone-append id [] ys = refl
told_gone-append id (callback j peer ∷ xs) ys = ground (arith, told_gone-append id xs ys)
told_gone-append id (send sub size ∷ xs) ys = told_gone-append id xs ys
told_gone-append id (start_gc interval ∷ xs) ys = told_gone-append id xs ys

told_gone-notify : (id : Str) (subs : List ℕ) (size : ℕ) → told_gone id (notify subs size) ≡ false
unfolding told_gone notify
told_gone-notify id [] size = refl
told_gone-notify id (s ∷ subs) size = told_gone-notify id subs size

-- The test of `retain` is on the age of the snapshot.
is_fresh-age :
    (now : Instant) (grace : Duration) (peer : Peer)
    → is_fresh now grace peer ≡ ltb (age now peer) grace
unfolding is_fresh age
is_fresh-age now grace peer = ground arith

abbrev pub stale : Instant → Duration → Option Peer → Bool
stale now grace none = false
stale now grace (some peer) = not (ltb (age now peer) grace)

told_gone-Below :
    (id : Str) (now : Instant) (grace : Duration) (table : BtreeMap Str Peer)
    → Below id (keys table)
    → told_gone id (expiries now grace table) ≡ false
unfolding told_gone expiries
told_gone-Below id now grace [] b = refl
told_gone-Below id now grace ((j, peer) ∷ rest) b =
    ground (arith, told_gone-Below id now grace rest b.1)

told_gone-expiries :
    (id : Str) (now : Instant) (grace : Duration) (table : BtreeMap Str Peer)
    → IsOrdered table
    → told_gone id (expiries now grace table) ≡ stale now grace (BtreeMap.get id table)
unfolding told_gone expiries is_expiry BtreeMap.get
told_gone-expiries id now grace [] o = refl
told_gone-expiries id now grace ((j, peer) ∷ rest) o = ground (
  arith,
  is_fresh-age now grace peer,
  told_gone-expiries id now grace rest o.1,
  λ (e : (list_ord {A = ℕ}).cmp id j ≡ eq).
      told_gone-Below id now grace rest
        (All-imp (λ y p. (list_ord {A = ℕ}).cmp_congr id j y e ∙ p) (keys rest) o.0),
)

abbrev pub if_fresh : Instant → Duration → Option Peer → Option Peer
if_fresh now grace none = none
if_fresh now grace (some peer) = if ltb (age now peer) grace then some peer else none

get-kept :
    (id : Str) (now : Instant) (grace : Duration) (table : BtreeMap Str Peer)
    → IsOrdered table
    → BtreeMap.get id (kept now grace table) ≡ if_fresh now grace (BtreeMap.get id table)
unfolding kept
get-kept id now grace table o =
    get-retain id (is_fresh now grace) table o ∙ go (BtreeMap.get id table)
  where
    go :
        (r : Option Peer)
        → elim r [ none ↦ none | some v ↦ if is_fresh now grace v then some v else none ]
          ≡ if_fresh now grace r
    go none = refl
    go (some peer) = rw (is_fresh-age now grace peer)

-- Three times the time after which each of `size` peers is expected to respond, where
-- `min(ceil(tau * phi), size)` of them do so in each `tau`.
abbrev pub three_cadences : FloatOps → Duration → F32 → ℕ → Outcome Duration
three_cadences f tau phi size =
    let in_a_cycle = f.min (f.ceil (f.mul (f.as_secs_f32 tau) phi)) (f.from_usize size) in
    f.from_secs_f32
      (f.div 0x40400000 (f.div (f.div in_a_cycle (f.as_secs_f32 tau)) (f.from_usize size)))

-- Where there are peers, their table is ordered, and `grace` is three times the time after which a
-- peer is expected to respond, if `min(ceil(tau * phi), size)` of `size` peers respond in each
-- `tau`, `GC` succeeds. A peer stays, unchanged, exactly if its age is below `grace`, so that one
-- whose age is `grace` goes, and the callback is told without addresses of exactly those that go.
-- The subscribers stay, and the next timer is started.
pub handle_input-gc :
    (f : FloatOps) (tau : Duration) (phi : F32) (interval : Duration) (now : Instant) (st : State)
    (grace : Duration)
    → IsOrdered st.table
    → is_empty st.table ≡ false
    → three_cadences f tau phi (BtreeMap.len st.table) ≡ ok grace
    → (st' : State) × (effects : List Effect) × (handle_input f tau phi interval now st gc
        ≡ ok (st', start_gc interval ∷ effects))
      × (st'.subscribers ≡ st.subscribers)
      × ((id : Str) → BtreeMap.get id st'.table ≡ if_fresh now grace (BtreeMap.get id st.table))
      × ((id : Str) → told_gone id effects ≡ stale now grace (BtreeMap.get id st.table))
unfolding handle_input collect grace_period
handle_input-gc f tau phi interval now st grace o some_left e = (
  record st { table = kept now grace st.table },
  expiries now grace st.table ++ notify (subs_of st) (BtreeMap.len (kept now grace st.table)),
  rw (some_left, e, collect),
  refl,
  λ id. get-kept id now grace st.table o,
  λ id.
      told_gone-append id (expiries now grace st.table) _
      ∙ ground (
        arith,
        told_gone-expiries id now grace st.table o,
        told_gone-notify id (subs_of st) (BtreeMap.len (kept now grace st.table)),
      ),
)
