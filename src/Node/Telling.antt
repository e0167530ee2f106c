-- ===== src/Node/Telling.antt =====
-- What a round of the updater tells the sender of the size of the swarm.
use swarm_discovery.Prelude.{
  ℕ, ◌≡◌, ◌⊎◌, inl, inr, refl, sym, ap, subst, ◌∙◌, true, false, List, [], ◌∷◌, ◌++◌, arith, ◌==◌,
  Bool-cases, map,
}
use swarm_discovery.Std.BtreeMap
use swarm_discovery.Std.BtreeMap.{BtreeMap}
use swarm_discovery.Std.BtreeMap.Laws.{contains-keys, get-insert}
use swarm_discovery.Std.Float.{F32, FloatOps}
use swarm_discovery.Std.Ord.{list_ord, nat_ord}
use swarm_discovery.Std.Outcome.{Outcome, ok, panic}
use swarm_discovery.Std.Sort.{contains}
use swarm_discovery.Std.Text.{Str, is_empty}
use swarm_discovery.Std.Time.{Duration, Instant}
use swarm_discovery.Messages.{
  GuardianInput, MdnsMsg, query_v4, query_v6, response, timeout, size_update, update, UpdaterInput,
  peers, gc, size_subscription,
}
use swarm_discovery.Peer.{Peer}
use swarm_discovery.Receiver.Shape.{IsHeard}
use swarm_discovery.Updater.{
  State, Effect, callback, send, start_gc, subs_of, insert_peers, handle_input, notify,
}
use swarm_discovery.Updater.Sizes.{
  IsValid, Informs, told, told-append, told-notify, told-insert_peers, put-IsValid,
  insert_peers-IsValid, subscribers-insert_peers, handle_input-Informs, contains-subscribe,
  subscribe-IsValid,
}
use swarm_discovery.Node.Rounds.{size_after}
use swarm_discovery.Node.{sizes_sent, sender_ref}

pub size_after-append :
    (k : ℕ) (ms more : List MdnsMsg) → size_after k (ms ++ more) ≡ size_after (size_after k ms) more
size_after-append k [] more = refl
size_after-append k (size_update size ∷ ms) more = size_after-append size ms more
size_after-append k (query_v4 ∷ ms) more = size_after-append k ms more
size_after-append k (query_v6 ∷ ms) more = size_after-append k ms more
size_after-append k (response m ∷ ms) more = size_after-append k ms more
size_after-append k (timeout c ∷ ms) more = size_after-append k ms more
size_after-append k (update i ∷ ms) more = size_after-append k ms more

pub size_after-updates :
    (k : ℕ) (inputs : List GuardianInput) → size_after k (map update inputs) ≡ k
size_after-updates k [] = refl
size_after-updates k (input ∷ inputs) = size_after-updates k inputs

pub size_after-heard : (k : ℕ) (msg : MdnsMsg) → IsHeard msg → size_after k (msg ∷ []) ≡ k
size_after-heard k query_v4 h = refl
size_after-heard k query_v6 h = refl
size_after-heard k (response m) h = refl
size_after-heard k (timeout c) h = refl
size_after-heard k (size_update j) h = absurd h
size_after-heard k (update i) h = refl

pub size_after-sent :
    (k : ℕ) (es : List Effect) → size_after k (sizes_sent es) ≡ told sender_ref k es
unfolding told
size_after-sent k [] = refl
size_after-sent k (callback id p ∷ es) = size_after-sent k es
size_after-sent k (start_gc t ∷ es) = size_after-sent k es
size_after-sent k (send s size ∷ es) = elim (Bool-cases (s == sender_ref)) [
  | inl e ↦ rw e (size_after-sent size es)
  | inr e ↦ rw e (size_after-sent k es)
]

-- The size, or 1, which the sender starts with, while there is no peer.
abbrev pub Known : ℕ → ℕ → Type 0
Known k size = (k ≡ size) ⊎ ((k ≡ 1) × (size ≡ 0))

abbrev Knowing : ℕ → Outcome (State × List Effect) → Type 0
Knowing k (ok (st, es)) =
    (IsValid st × (contains sender_ref (subs_of st) ≡ true))
    × Known (told sender_ref k es) (BtreeMap.len st.table)
Knowing k panic = Unit

nobody_known :
    (id : Str) (table : BtreeMap Str Peer) → table ≡ [] → BtreeMap.contains_key id table ≡ false
unfolding BtreeMap.get
nobody_known id table e = rw e refl

-- The first peer is news.
first_peer :
    (id : Str) (p : Peer) (rest : BtreeMap Str Peer) (st : State) (k : ℕ)
    → IsValid st
    → contains sender_ref (subs_of st) ≡ true
    → st.table ≡ []
    → told sender_ref k (insert_peers ((id, p) ∷ rest) st).1
      ≡ BtreeMap.len (insert_peers ((id, p) ∷ rest) st).0.table
unfolding insert_peers told
first_peer id p rest st k v c none_yet =
    let st' : State = record st { table = BtreeMap.insert id p st.table } in
    let informed = told-notify sender_ref k (BtreeMap.len st'.table) (subs_of st) c in
    rw (nobody_known id st.table none_yet) (
      told-append sender_ref k (notify (subs_of st) (BtreeMap.len st'.table))
        (insert_peers rest st').1
      ∙ told-insert_peers sender_ref _ rest st' (put-IsValid id p st v) c informed)

nothing : (table : BtreeMap Str Peer) → BtreeMap.len table ≡ 0 → table ≡ []
nothing [] e = refl
nothing (x ∷ table) e = let never : ⊥ = omega arith in absurd never

empty : (table : BtreeMap Str Peer) → BtreeMap.len table ≡ 0 → is_empty table ≡ true
empty table e = ap is_empty (nothing table e)

handle_input-Knowing :
    (f : FloatOps) (tau : Duration) (phi : F32) (interval : Duration) (now : Instant) (st : State)
    (input : UpdaterInput) (k : ℕ)
    → IsValid st
    → contains sender_ref (subs_of st) ≡ true
    → Known k (BtreeMap.len st.table)
    → Knowing k (handle_input f tau phi interval now st input)
unfolding handle_input insert_peers told
handle_input-Knowing f tau phi interval now st input k v c (inl e) =
    informed (handle_input f tau phi interval now st input)
      (handle_input-Informs f tau phi interval now st input sender_ref k v c e)
  where
    informed : (r : Outcome (State × List Effect)) → Informs sender_ref k r → Knowing k r
    informed (ok (st', es)) h = ((h.0, h.1), inl h.2)
    informed panic h = tt
handle_input-Knowing f tau phi interval now st (peers []) k v c (inr e) = ((v, c), inr e)
handle_input-Knowing f tau phi interval now st (peers ((id, p) ∷ rest)) k v c (inr e) = (
  (insert_peers-IsValid ((id, p) ∷ rest) st v, rw (subscribers-insert_peers ((id, p) ∷ rest) st) c),
  inl (first_peer id p rest st k v c (nothing st.table e.1)),
)
handle_input-Knowing f tau phi interval now st gc k v c (inr e) =
    rw (empty st.table e.1) ((v, c), inr e)
handle_input-Knowing f tau phi interval now st (size_subscription s) k v c (inr e) =
    ((subscribe-IsValid s st v, contains-subscribe sender_ref s st c), inr e)

-- The subscription of the sender waits, first of all, while there is no peer.
pub record Before (st : State) (updates : List UpdaterInput) (size : ℕ) : Type 0 where
  pub first : (rest : List UpdaterInput) × (updates ≡ size_subscription sender_ref ∷ rest)
  pub nobody : BtreeMap.len st.table ≡ 0
  pub first_count : size ≡ 1

abbrev pub Tells : State → List UpdaterInput → ℕ → Type 0
Tells st updates size =
    IsValid st
    × (Before st updates size
        ⊎ ((contains sender_ref (subs_of st) ≡ true) × Known size (BtreeMap.len st.table)))

pub Tells-append :
    (st : State) (updates more : List UpdaterInput) (size : ℕ)
    → Tells st updates size
    → Tells st (updates ++ more) size
Tells-append st updates more size (v, inl b) = (
  v,
  inl (record {
    first = (b.first.0 ++ more, ap (λ us. us ++ more) b.first.1);
    nobody = b.nobody;
    first_count = b.first_count;
  }),
)
Tells-append st updates more size (v, inr a) = (v, inr a)

contains-subscribed :
    (s : ℕ) (st : State) → contains s (BtreeMap.keys (BtreeMap.insert s tt st.subscribers)) ≡ true
unfolding nat_ord
contains-subscribed s st =
    contains-keys s (BtreeMap.insert s tt st.subscribers)
    ∙ ground (arith, get-insert s s tt st.subscribers)

-- What the updater does with its next message.
abbrev pub Next : ℕ → List UpdaterInput → Outcome (State × List Effect) → Type 0
Next k rest (ok (st, es)) = Tells st rest (told sender_ref k es)
Next k rest panic = Unit

Next-known :
    (k : ℕ) (rest : List UpdaterInput) (r : Outcome (State × List Effect))
    → Knowing k r
    → Next k rest r
Next-known k rest (ok (st, es)) h = (h.0.0, inr (h.0.1, h.1))
Next-known k rest panic h = tt

pub handle_input-Next :
    (f : FloatOps) (tau : Duration) (phi : F32) (interval : Duration) (now : Instant) (st : State)
    (updates : List UpdaterInput) (input : UpdaterInput) (rest : List UpdaterInput) (k : ℕ)
    → updates ≡ input ∷ rest
    → Tells st updates k
    → Next k rest (handle_input f tau phi interval now st input)
unfolding handle_input told
handle_input-Next f tau phi interval now st updates input rest k e (v, inr (c, known)) =
    Next-known k rest (handle_input f tau phi interval now st input)
      (handle_input-Knowing f tau phi interval now st input k v c known)
handle_input-Next f tau phi interval now st updates input rest k e (v, inl b) =
    subscribed input (cc (sym e ∙ b.first.1))
  where
    subscribed :
        (i : UpdaterInput)
        → i ≡ size_subscription sender_ref
        → Next k rest (handle_input f tau phi interval now st i)
    subscribed i q =
        subst (λ j. Next k rest (handle_input f tau phi interval now st j)) (sym q)
          (
            subscribe-IsValid sender_ref st v,
            inr (contains-subscribed sender_ref st, inr (b.first_count, b.nobody)),
          )
