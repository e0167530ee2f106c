-- ===== src/Updater/Sizes.antt =====
-- The size of the swarm that subscribers (the sender) are told.
use swarm_discovery.Prelude.{
  ℕ, ◌≡◌, refl, ◌∙◌, true, List, [], ◌∷◌, ◌++◌, if◌then◌else◌, arith, ◌==◌, Bool-cases, inl, inr,
}
use swarm_discovery.Std.BtreeMap
use swarm_discovery.Std.BtreeMap.{BtreeMap, IsOrdered, keys}
use swarm_discovery.Std.BtreeMap.Laws.{
  insert-IsOrdered, len-insert, contains-keys, get-insert, retain-IsOrdered,
}
use swarm_discovery.Std.Float.{F32, FloatOps}
use swarm_discovery.Std.Ord.{list_ord, nat_ord}
use swarm_discovery.Std.Outcome.{Outcome, ok, panic, ◌>>=◌, Outcome-cases}
use swarm_discovery.Std.Sort.{contains}
use swarm_discovery.Std.Text.{Str, is_empty}
use swarm_discovery.Std.Time.{Duration, Instant}
use swarm_discovery.Messages.{UpdaterInput, peers, gc, size_subscription}
use swarm_discovery.Peer.{Peer}
use swarm_discovery.Updater.{
  State, Effect, callback, send, start_gc, notify, subs_of, insert_peers, collect, handle_input,
  run, kept, expiries, grace_period,
}

-- What a subscriber knows after some effects, when it knew `k` before.
unfoldable pub told : ℕ → ℕ → List Effect → ℕ
told sub k [] = k
told sub k (send s size ∷ effects) = told sub (if s == sub then size else k) effects
told sub k (callback id peer ∷ effects) = told sub k effects
told sub k (start_gc interval ∷ effects) = told sub k effects

pub told-append :
    (sub k : ℕ) (xs ys : List Effect) → told sub k (xs ++ ys) ≡ told sub (told sub k xs) ys
unfolding told
told-append sub k [] ys = refl
told-append sub k (send s size ∷ xs) ys = told-append sub (if s == sub then size else k) xs ys
told-append sub k (callback id peer ∷ xs) ys = told-append sub k xs ys
told-append sub k (start_gc interval ∷ xs) ys = told-append sub k xs ys

told-notify_same : (sub size : ℕ) (subs : List ℕ) → told sub size (notify subs size) ≡ size
unfolding told notify
told-notify_same sub size [] = refl
told-notify_same sub size (s ∷ subs) = ground (arith, told-notify_same sub size subs)

pub told-notify :
    (sub k size : ℕ) (subs : List ℕ)
    → contains sub subs ≡ true
    → told sub k (notify subs size) ≡ size
unfolding told notify contains nat_ord
told-notify sub k size [] h = cc
told-notify sub k size (s ∷ subs) h =
    ground (arith, told-notify sub k size subs, told-notify_same sub size subs)

told-expiries :
    (sub k : ℕ) (now : Instant) (grace : Duration) (table : BtreeMap Str Peer)
    → told sub k (expiries now grace table) ≡ k
unfolding told expiries
told-expiries sub k now grace [] = refl
told-expiries sub k now grace ((id, peer) ∷ rest) =
    ground (arith, told-expiries sub k now grace rest)

-- The table is ordered by the identifiers, and the subscribers too.
pub record IsValid (st : State) : Type 0 where
  pub table_ordered : IsOrdered st.table
  pub subscribers_ordered : IsOrdered st.subscribers

abbrev put : Str → Peer → State → State
put id peer st = record st { table = BtreeMap.insert id peer st.table }

pub put-IsValid : (id : Str) (peer : Peer) (st : State) → IsValid st → IsValid (put id peer st)
put-IsValid id peer st v = record {
  table_ordered = insert-IsOrdered id peer st.table v.table_ordered;
  subscribers_ordered = v.subscribers_ordered;
}

pub insert_peers-IsValid :
    (msg : BtreeMap Str Peer) (st : State) → IsValid st → IsValid (insert_peers msg st).0
unfolding insert_peers
insert_peers-IsValid [] st v = v
insert_peers-IsValid ((id, peer) ∷ rest) st v =
    insert_peers-IsValid rest (put id peer st) (put-IsValid id peer st v)

pub kept-IsOrdered :
    (now : Instant) (grace : Duration) (table : BtreeMap Str Peer)
    → IsOrdered table
    → IsOrdered (kept now grace table)
unfolding kept
kept-IsOrdered now grace table o = retain-IsOrdered _ table o

pub subscribe-IsValid :
    (s : ℕ) (st : State)
    → IsValid st
    → IsValid (record st { subscribers = BtreeMap.insert s tt st.subscribers })
subscribe-IsValid s st v = record {
  table_ordered = v.table_ordered;
  subscribers_ordered = insert-IsOrdered s tt st.subscribers v.subscribers_ordered;
}

pub subscribers-insert_peers :
    (msg : BtreeMap Str Peer) (st : State) → (insert_peers msg st).0.subscribers ≡ st.subscribers
unfolding insert_peers
subscribers-insert_peers [] st = refl
subscribers-insert_peers ((id, peer) ∷ rest) st = subscribers-insert_peers rest _

abbrev news : Str → Peer → State → List Effect
news id peer st =
    if BtreeMap.contains_key id st.table
    then []
    else notify (subs_of st) (BtreeMap.len (put id peer st).table)

pub told-news :
    (sub k : ℕ) (id : Str) (peer : Peer) (st : State)
    → IsValid st
    → contains sub (subs_of st) ≡ true
    → k ≡ BtreeMap.len st.table
    → told sub k (news id peer st) ≡ BtreeMap.len (put id peer st).table
unfolding told
told-news sub k id peer st v c e = elim (Bool-cases (BtreeMap.contains_key id st.table)) [
  | inl known ↦ rw known (cc (len-insert id peer st.table v.table_ordered))
  | inr fresh ↦ rw fresh (told-notify sub k _ (subs_of st) c)
]

pub told-insert_peers :
    (sub k : ℕ) (msg : BtreeMap Str Peer) (st : State)
    → IsValid st
    → contains sub (subs_of st) ≡ true
    → k ≡ BtreeMap.len st.table
    → told sub k (insert_peers msg st).1 ≡ BtreeMap.len (insert_peers msg st).0.table
unfolding insert_peers told
told-insert_peers sub k [] st v c e = e
told-insert_peers sub k ((id, peer) ∷ rest) st v c e =
    told-append sub k (news id peer st) (insert_peers rest (put id peer st)).1
    ∙ told-insert_peers sub (told sub k (news id peer st)) rest (put id peer st)
        (put-IsValid id peer st v) c (told-news sub k id peer st v c e)

-- The state is valid, the subscriber is subscribed, and what it knows after the effects is the size
-- of the table. (After a panic the actor is gone.)
abbrev pub Informs : ℕ → ℕ → Outcome (State × List Effect) → Type 0
Informs sub k (ok (st, effects)) =
    IsValid st × (contains sub (subs_of st) ≡ true) × (told sub k effects ≡ BtreeMap.len st.table)
Informs sub k panic = Unit

collect-Informs :
    (f : FloatOps) (tau : Duration) (phi : F32) (now : Instant) (st : State) (sub k : ℕ)
    → IsValid st
    → contains sub (subs_of st) ≡ true
    → Informs sub k (collect f tau phi now st)
unfolding collect
collect-Informs f tau phi now st sub k v c =
    elim (Outcome-cases (grace_period f tau phi (BtreeMap.len st.table))) [
      | inl (grace, e) ↦
          let table' = kept now grace st.table in
          rw (e, collect)
            (
              record {
                table_ordered = kept-IsOrdered now grace st.table v.table_ordered;
                subscribers_ordered = v.subscribers_ordered;
              },
              c,
              told-append sub k (expiries now grace st.table) _
                  ∙ told-notify sub _ (BtreeMap.len table') (subs_of st) c,
            )
      | inr e ↦ rw (e, collect) tt
    ]

pub contains-subscribe :
    (sub s : ℕ) (st : State)
    → contains sub (subs_of st) ≡ true
    → contains sub (BtreeMap.keys (BtreeMap.insert s tt st.subscribers)) ≡ true
contains-subscribe sub s st c =
    contains-keys sub (BtreeMap.insert s tt st.subscribers)
    ∙ ground (arith, get-insert sub s tt st.subscribers, contains-keys sub st.subscribers)

-- One message keeps the state valid and a subscriber subscribed, and one that knew the size of the
-- table knows it again.
pub handle_input-Informs :
    (f : FloatOps) (tau : Duration) (phi : F32) (interval : Duration) (now : Instant) (st : State)
    (input : UpdaterInput) (sub k : ℕ)
    → IsValid st
    → contains sub (subs_of st) ≡ true
    → k ≡ BtreeMap.len st.table
    → Informs sub k (handle_input f tau phi interval now st input)
unfolding handle_input told
handle_input-Informs f tau phi interval now st (peers msg) sub k v c e = (
  insert_peers-IsValid msg st v,
  rw (subscribers-insert_peers msg st) c,
  told-insert_peers sub k msg st v c e,
)
handle_input-Informs f tau phi interval now st gc sub k v c e =
    elim (Bool-cases (is_empty st.table)) [
      | inl nobody ↦ rw nobody (v, c, e)
      | inr some_left ↦
          rw some_left
            (collected (collect f tau phi now st) (collect-Informs f tau phi now st sub k v c))
    ]
  where
    collected :
        (r : Outcome (State × List Effect))
        → Informs sub k r
        → Informs sub k (r >>= λ p. ok (p.0, start_gc interval ∷ p.1))
    collected (ok p) h = h
    collected panic h = tt
handle_input-Informs f tau phi interval now st (size_subscription s) sub k v c e =
    (subscribe-IsValid s st v, contains-subscribe sub s st c, e)

Informs-append :
    (sub k : ℕ) (effects : List Effect) (r : Outcome (State × List Effect))
    → Informs sub (told sub k effects) r
    → Informs sub k (r >>= λ q. ok (q.0, effects ++ q.1))
Informs-append sub k effects (ok q) h = (h.0, h.1, told-append sub k effects q.1 ∙ h.2)
Informs-append sub k effects panic h = tt

-- After any messages to an ordered state, if the updater did not panic, the state is ordered, and
-- a subscriber that knew the size of the table before them is still subscribed and has been told
-- the size that it has now.
pub run-Informs :
    (f : FloatOps) (tau : Duration) (phi : F32) (interval : Duration)
    (inputs : List (Instant × UpdaterInput)) (st : State) (sub k : ℕ)
    → IsValid st
    → contains sub (subs_of st) ≡ true
    → k ≡ BtreeMap.len st.table
    → Informs sub k (run f tau phi interval st inputs)
unfolding run told
run-Informs f tau phi interval [] st sub k v c e = (v, c, e)
run-Informs f tau phi interval ((now, input) ∷ inputs) st sub k v c e =
    elim (Outcome-cases (handle_input f tau phi interval now st input)) [
      | inl (p, q) ↦
          let h = rw q at (handle_input-Informs f tau phi interval now st input sub k v c e) in
          rw (q, run)
            (Informs-append sub k p.1 (run f tau phi interval p.0 inputs)
              (run-Informs f tau phi interval inputs p.0 sub (told sub k p.1) h.0 h.1 h.2))
      | inr q ↦ rw (q, run) tt
    ]
