-- ===== src/Node/Pending.antt =====
-- A response on its way to the table of the updater.
use swarm_discovery.Prelude.{
  ◌≡◌, refl, sym, ap, subst, ◌∙◌, List, [], ◌∷◌, ◌++◌, All, All-append, map, append_assoc,
  append-nil, ◌==◌, if_both,
}
use swarm_discovery.Std.BtreeMap.{BtreeMap}
use swarm_discovery.Std.Float.{FloatOps}
use swarm_discovery.Std.Ord.{list_ord, nat_ord}
use swarm_discovery.Std.Outcome.{ok}
use swarm_discovery.Std.Text.{Str}
use swarm_discovery.Std.Time.{Duration, Instant}
use swarm_discovery.Discoverer.{Discoverer}
use swarm_discovery.Messages.{
  GuardianInput, MdnsMsg, query_v4, query_v6, response, timeout, size_update, update, UpdaterInput,
  peers,
}
use swarm_discovery.Peer.{Peer}
use swarm_discovery.Updater
use swarm_discovery.Updater.{insert_peers, handle_input}
use swarm_discovery.Node.Rounds.{relayed}
use swarm_discovery.Node.{sizes_sent, sender_ref}

-- A message that the sender keeps to itself.
abbrev pub IsQuiet : MdnsMsg → Type 0
IsQuiet (response m) = ⊥
IsQuiet _ = Unit

relayed-IsQuiet : (msg : MdnsMsg) → IsQuiet msg → relayed msg ≡ []
relayed-IsQuiet (response m) h = absurd h
relayed-IsQuiet query_v4 h = refl
relayed-IsQuiet query_v6 h = refl
relayed-IsQuiet (timeout c) h = refl
relayed-IsQuiet (size_update k) h = refl
relayed-IsQuiet (update i) h = refl

pub updates-IsQuiet : (inputs : List GuardianInput) → All IsQuiet (map update inputs)
updates-IsQuiet [] = tt
updates-IsQuiet (input ∷ inputs) = (tt, updates-IsQuiet inputs)

pub sizes-IsQuiet : (es : List Updater.Effect) → All IsQuiet (sizes_sent es)
sizes-IsQuiet [] = tt
sizes-IsQuiet (Updater.callback id p ∷ es) = sizes-IsQuiet es
sizes-IsQuiet (Updater.send sub size ∷ es) =
    let others = sizes-IsQuiet es in
    if_both (All IsQuiet) (sub == sender_ref) {x = size_update size ∷ sizes_sent es} (tt, others)
      others
sizes-IsQuiet (Updater.start_gc t ∷ es) = sizes-IsQuiet es

module _ (m : BtreeMap Str Peer) (Learnt : Updater.State → Type 0) where
  -- The response waits for the sender, then as the last message for the updater, and then the
  -- updater has taken it in.
  pub data Learning (mailbox : List MdnsMsg) (updates : List UpdaterInput) (st : Updater.State)
      : Type 0 where
    in_mailbox :
        (front back : List MdnsMsg)
        → mailbox ≡ front ++ response m ∷ back
        → All IsQuiet back
        → Learning mailbox updates st
    in_updates :
        (front : List UpdaterInput)
        → updates ≡ front ++ peers m ∷ []
        → All IsQuiet mailbox
        → Learning mailbox updates st
    in_table : updates ≡ [] → All IsQuiet mailbox → Learnt st → Learning mailbox updates st

  pub with_mail :
      (mailbox more_mail : List MdnsMsg) (updates : List UpdaterInput) (st : Updater.State)
      → All IsQuiet more_mail
      → Learning mailbox updates st
      → Learning (mailbox ++ more_mail) updates st
  with_mail mailbox more_mail updates st h (in_mailbox front back e q) =
      in_mailbox front (back ++ more_mail)
        (ap (λ ms. ms ++ more_mail) e ∙ append_assoc front (response m ∷ back) more_mail)
        (All-append IsQuiet back more_mail q h)
  with_mail mailbox more_mail updates st h (in_updates front e q) =
      in_updates front e (All-append IsQuiet mailbox more_mail q h)
  with_mail mailbox more_mail updates st h (in_table e q l) =
      in_table e (All-append IsQuiet mailbox more_mail q h) l

  -- The sender takes in a message.
  taken :
      (msg : MdnsMsg) (rest front back : List MdnsMsg) (updates : List UpdaterInput)
      (st : Updater.State)
      → msg ∷ rest ≡ front ++ response m ∷ back
      → All IsQuiet back
      → Learning rest (updates ++ relayed msg) st
  taken msg rest [] back updates st e q =
      let same : msg ≡ response m = cc e in
      let others : rest ≡ back = cc e in
      in_updates updates (ap (λ x. updates ++ relayed x) same) (subst (All IsQuiet) (sym others) q)
  taken msg rest (x ∷ front) back updates st e q = in_mailbox front back (cc e) q

  pub sender_takes :
      (msg : MdnsMsg) (mailbox rest : List MdnsMsg) (updates : List UpdaterInput)
      (st : Updater.State)
      → mailbox ≡ msg ∷ rest
      → Learning mailbox updates st
      → Learning rest (updates ++ relayed msg) st
  sender_takes msg mailbox rest updates st e (in_mailbox front back p q) =
      taken msg rest front back updates st (sym e ∙ p) q
  sender_takes msg mailbox rest updates st e (in_updates front p q) =
      let quiet = subst (All IsQuiet) e q in
      in_updates front
        (ap (λ us. updates ++ us) (relayed-IsQuiet msg quiet.0) ∙ append-nil updates ∙ p) quiet.1
  sender_takes msg mailbox rest updates st e (in_table p q l) =
      let quiet = subst (All IsQuiet) e q in
      in_table (ap (λ us. updates ++ us) (relayed-IsQuiet msg quiet.0) ∙ append-nil updates ∙ p)
        quiet.1 l

  module _ (f : FloatOps) (d : Discoverer)
      (learns : (st : Updater.State) → Learnt (insert_peers m st).0) where
    updated :
        (now : Instant) (interval : Duration) (input : UpdaterInput)
        (front rest : List UpdaterInput) (mailbox : List MdnsMsg) (st st' : Updater.State)
        (es : List Updater.Effect)
        → handle_input f d.tau d.phi interval now st input ≡ ok (st', es)
        → input ∷ rest ≡ front ++ peers m ∷ []
        → All IsQuiet mailbox
        → Learning mailbox rest st'
    unfolding handle_input
    updated now interval input [] rest mailbox st st' es h e q =
        let same : input ≡ peers m = cc e in
        let result : ok (insert_peers m st) ≡ ok (st', es) =
          subst (λ i. handle_input f d.tau d.phi interval now st i ≡ ok (st', es)) same h in
        let after : (insert_peers m st).0 ≡ st' = cc result in
        in_table (cc e) q (subst Learnt after (learns st))
    updated now interval input (x ∷ front) rest mailbox st st' es h e q = in_updates front (cc e) q

    pub updater_takes :
        (now : Instant) (interval : Duration) (input : UpdaterInput)
        (updates rest : List UpdaterInput) (mailbox : List MdnsMsg) (st st' : Updater.State)
        (es : List Updater.Effect)
        → handle_input f d.tau d.phi interval now st input ≡ ok (st', es)
        → updates ≡ input ∷ rest
        → Learning mailbox updates st
        → Learning mailbox rest st'
    updater_takes now interval input updates rest mailbox st st' es h e
          (in_mailbox front back p q) =
        in_mailbox front back p q
    updater_takes now interval input updates rest mailbox st st' es h e (in_updates front p q) =
        updated now interval input front rest mailbox st st' es h (sym e ∙ p) q
    updater_takes now interval input updates rest mailbox st st' es h e (in_table p q l) =
        let never : ⊥ = cc (sym e ∙ p) in absurd never
