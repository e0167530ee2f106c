-- ===== src/Node/Load.antt =====
-- How much work the messages make that wait in a node.
use swarm_discovery.Prelude.{
  ℕ, suc, ◌+◌, ◌*◌, ◌≤◌, ◌≡◌, ◌⊎◌, inl, inr, refl, Bool, true, false, List, [], ◌∷◌, ◌++◌, arith,
  Bool-cases, map, ◌==◌, if◌then◌else◌,
}
use swarm_discovery.Std.BtreeMap
use swarm_discovery.Std.BtreeMap.{BtreeMap}
use swarm_discovery.Std.BtreeMap.Laws.{len-insert_bound}
use swarm_discovery.Std.Float.{F32, FloatOps}
use swarm_discovery.Std.Ord.{list_ord, nat_ord}
use swarm_discovery.Std.Outcome.{Outcome, ok, panic, Outcome-cases}
use swarm_discovery.Std.Sort.{retain}
use swarm_discovery.Std.Text.{Str, is_empty}
use swarm_discovery.Std.Time.{Duration, Instant}
use swarm_discovery.Guardian.Forwarding.{own}
use swarm_discovery.Messages.{
  GuardianInput, MdnsMsg, query_v4, query_v6, response, timeout, size_update, update, UpdaterInput,
  peers, gc, size_subscription,
}
use swarm_discovery.Peer.{Peer}
use swarm_discovery.Updater.{
  State, Effect, callback, send, start_gc, notify, subs_of, insert_peers, collect, handle_input,
  kept, expiries, grace_period,
}
use swarm_discovery.Node.Rounds.{relayed}
use swarm_discovery.Node.{sizes_sent, sender_ref}

-- A message to the updater may add each of its peers to the table, and make it tell the sender a size
-- for each of them.
abbrev pub updates_load : List UpdaterInput → ℕ
updates_load [] = 0
updates_load (peers m ∷ inputs) = 1 + 2 * BtreeMap.len m + updates_load inputs
updates_load (gc ∷ inputs) = 2 + updates_load inputs
updates_load (size_subscription sub ∷ inputs) = 1 + updates_load inputs

-- A message to the sender may make it hand on a response.
abbrev pub mail_load : List MdnsMsg → ℕ
mail_load [] = 0
mail_load (response m ∷ ms) = 2 + 2 * BtreeMap.len m + mail_load ms
mail_load (_ ∷ ms) = 1 + mail_load ms

pub updates_load-append :
    (xs ys : List UpdaterInput) → updates_load (xs ++ ys) ≡ updates_load xs + updates_load ys
updates_load-append [] ys = omega arith
updates_load-append (peers m ∷ xs) ys = omega (arith, updates_load-append xs ys)
updates_load-append (gc ∷ xs) ys = omega (arith, updates_load-append xs ys)
updates_load-append (size_subscription s ∷ xs) ys = omega (arith, updates_load-append xs ys)

pub mail_load-append : (xs ys : List MdnsMsg) → mail_load (xs ++ ys) ≡ mail_load xs + mail_load ys
mail_load-append [] ys = omega arith
mail_load-append (response m ∷ xs) ys = omega (arith, mail_load-append xs ys)
mail_load-append (query_v4 ∷ xs) ys = omega (arith, mail_load-append xs ys)
mail_load-append (query_v6 ∷ xs) ys = omega (arith, mail_load-append xs ys)
mail_load-append (timeout c ∷ xs) ys = omega (arith, mail_load-append xs ys)
mail_load-append (size_update k ∷ xs) ys = omega (arith, mail_load-append xs ys)
mail_load-append (update i ∷ xs) ys = omega (arith, mail_load-append xs ys)

-- The sender hands on less than it takes.
pub relayed_load :
    (msg : MdnsMsg) (rest : List MdnsMsg)
    → suc (updates_load (relayed msg) + mail_load rest) ≤ mail_load (msg ∷ rest)
relayed_load (response m) rest = omega arith
relayed_load query_v4 rest = omega arith
relayed_load query_v6 rest = omega arith
relayed_load (timeout c) rest = omega arith
relayed_load (size_update k) rest = omega arith
relayed_load (update i) rest = omega arith

pub own_load : (input : GuardianInput) → mail_load (map update (own input)) ≤ 1
own_load = ground arith

-- Nobody but the sender has subscribed.
abbrev pub IsAlone : State → Type 0
IsAlone st = (st.subscribers ≡ []) ⊎ (st.subscribers ≡ (sender_ref, tt) ∷ [])

abbrev pub IsFromSender : UpdaterInput → Type 0
IsFromSender (size_subscription sub) = sub ≡ sender_ref
IsFromSender _ = Unit

sizes_sent-append : (xs ys : List Effect) → sizes_sent (xs ++ ys) ≡ sizes_sent xs ++ sizes_sent ys
sizes_sent-append [] ys = refl
sizes_sent-append (callback id p ∷ xs) ys = sizes_sent-append xs ys
sizes_sent-append (send s k ∷ xs) ys = elim (Bool-cases (s == sender_ref)) [
  | inl e ↦ ground (arith, sizes_sent-append xs ys)
  | inr e ↦ ground (arith, sizes_sent-append xs ys)
]
sizes_sent-append (start_gc t ∷ xs) ys = sizes_sent-append xs ys

abbrev told_load : List Effect → ℕ
told_load es = mail_load (sizes_sent es)

told_load-append : (xs ys : List Effect) → told_load (xs ++ ys) ≡ told_load xs + told_load ys
told_load-append xs ys =
    rw (sizes_sent-append xs ys) (mail_load-append (sizes_sent xs) (sizes_sent ys))

told_load-notify : (st : State) (size : ℕ) → IsAlone st → told_load (notify (subs_of st) size) ≤ 1
unfolding notify
told_load-notify st size (inl e) = rw e (omega arith)
told_load-notify st size (inr e) = rw e (omega arith)

told_load-expiries :
    (now : Instant) (grace : Duration) (table : BtreeMap Str Peer)
    → told_load (expiries now grace table) ≡ 0
unfolding expiries
told_load-expiries now grace [] = refl
told_load-expiries now grace ((id, p) ∷ rest) = ground (arith, told_load-expiries now grace rest)

told_load-insert_peers :
    (m : BtreeMap Str Peer) (st : State)
    → IsAlone st
    → told_load (insert_peers m st).1 ≤ BtreeMap.len m
unfolding insert_peers
told_load-insert_peers [] st h = omega arith
told_load-insert_peers ((id, p) ∷ rest) st h =
    let st' : State = record st { table = BtreeMap.insert id p st.table } in
    let news : List Effect =
      if BtreeMap.contains_key id st.table
      then []
      else notify (subs_of st) (BtreeMap.len st'.table) in
    omega (
      arith,
      told_load-append news (insert_peers rest st').1,
      told_load-insert_peers rest st' h,
      at_most_one (BtreeMap.contains_key id st.table) (BtreeMap.len st'.table),
    )
  where
    at_most_one :
        (known : Bool) (size : ℕ) → told_load (if known then [] else notify (subs_of st) size) ≤ 1
    at_most_one true size = omega arith
    at_most_one false size = told_load-notify st size h

subscribers-insert_peers :
    (m : BtreeMap Str Peer) (st : State) → IsAlone st → IsAlone (insert_peers m st).0
unfolding insert_peers
subscribers-insert_peers [] st h = h
subscribers-insert_peers ((id, p) ∷ rest) st h =
    subscribers-insert_peers rest (record st { table = BtreeMap.insert id p st.table }) h

len-insert_peers :
    (m : BtreeMap Str Peer) (st : State)
    → BtreeMap.len (insert_peers m st).0.table ≤ BtreeMap.len st.table + BtreeMap.len m
unfolding insert_peers
len-insert_peers [] st = omega arith
len-insert_peers ((id, p) ∷ rest) st = omega (
  arith,
  len-insert_peers rest (record st { table = BtreeMap.insert id p st.table }),
  len-insert_bound id p st.table,
)

len-kept :
    (now : Instant) (grace : Duration) (table : BtreeMap Str Peer)
    → BtreeMap.len (kept now grace table) ≤ BtreeMap.len table
unfolding kept retain
len-kept now grace [] = omega arith
len-kept now grace ((id, p) ∷ rest) = ground (arith, len-kept now grace rest)

-- The updater tells the sender less than it takes, also when its table grows.
abbrev pub Lightens : ℕ → UpdaterInput → Outcome (State × List Effect) → Type 0
Lightens size input (ok (st, es)) =
    IsAlone st
    × (suc (told_load es) ≤ updates_load (input ∷ []))
    × (suc (told_load es) + BtreeMap.len st.table ≤ updates_load (input ∷ []) + size)
Lightens size input panic = Unit

pub handle_input-Lightens :
    (f : FloatOps) (tau : Duration) (phi : F32) (interval : Duration) (now : Instant) (st : State)
    (input : UpdaterInput)
    → IsAlone st
    → IsFromSender input
    → Lightens (BtreeMap.len st.table) input (handle_input f tau phi interval now st input)
unfolding handle_input collect BtreeMap.insert nat_ord
handle_input-Lightens f tau phi interval now st (peers m) h o = (
  subscribers-insert_peers m st h,
  omega (arith, told_load-insert_peers m st h),
  omega (arith, told_load-insert_peers m st h, len-insert_peers m st),
)
handle_input-Lightens f tau phi interval now st (size_subscription sub) (inl e) o =
    (inr (rw (e, o) refl), omega arith, omega arith)
handle_input-Lightens f tau phi interval now st (size_subscription sub) (inr e) o =
    (inr (rw (e, o) refl), omega arith, omega arith)
handle_input-Lightens f tau phi interval now st gc h o = elim (Bool-cases (is_empty st.table)) [
  | inl e ↦ rw e (h, omega arith, omega arith)
  | inr e ↦ elim (Outcome-cases (grace_period f tau phi (BtreeMap.len st.table))) [
    | inl (g, q) ↦
        let told : List Effect = notify (subs_of st) (BtreeMap.len (kept now g st.table)) in
        let light : suc (told_load (expiries now g st.table ++ told)) ≤ 2 = omega (
          arith,
          told_load-append (expiries now g st.table) told,
          told_load-expiries now g st.table,
          told_load-notify st (BtreeMap.len (kept now g st.table)) h,
        ) in
        rw (e, q, collect) (h, omega (arith, light), omega (arith, light, len-kept now g st.table))
    | inr q ↦ rw (e, q, collect) tt
  ]
]
