-- ===== src/Wire/Lengths.antt =====
-- The lengths of the strings of the TXT record, which are at most 255 bytes on the wire.
use swarm_discovery.Prelude.{
  ℕ, ◌≤◌, ◌≡◌, refl, sym, subst, ap, eq, false, List, [], ◌∷◌, Option, none, some, arith, length,
  length-append, All,
}
use swarm_discovery.Std.BtreeMap
use swarm_discovery.Std.Ord.{list_ord, nat_ord, list_cmp-IsExact, compare-IsExact}
use swarm_discovery.Std.Text.{Str, is_empty}
use swarm_discovery.Std.Time.{Instant}
use swarm_discovery.Discoverer.{
  Discoverer, TxtResult, ok, err, validate_txt_attribute, insert_attributes, with_txt_attributes,
  my_txt, update_me,
}
use swarm_discovery.Peer.{TxtData}
use swarm_discovery.Sender.Response.{attribute_text}
use swarm_discovery.Sender.Updates.{get_inserted}

-- An attribute that a TXT record can hold.
pub record Fits (e : Str × Option Str) : Type 0 where
  pub named : is_empty e.0 ≡ false
  pub short : length (attribute_text e) ≤ 255

pub validate-Fits :
    (key : Str) (value : Option Str) → validate_txt_attribute key value ≡ ok tt → Fits (key, value)
unfolding validate_txt_attribute
validate-Fits key none h = record { named = ground arith; short = ground arith }
validate-Fits key (some v) h = record {
  named = ground arith;
  short = ground (arith, length-append key (61 ∷ v));
}

same_key-Fits :
    (key j : Str) (value : Option Str)
    → Fits (key, value)
    → (list_ord {A = ℕ}).cmp key j ≡ eq
    → Fits (j, value)
unfolding list_ord nat_ord
same_key-Fits key j value p e =
    subst (λ k. Fits (k, value)) (list_cmp-IsExact compare-IsExact key j e) p

pub insert-Fits :
    (key : Str) (value : Option Str) (t : TxtData)
    → Fits (key, value)
    → All Fits t
    → All Fits (BtreeMap.insert key value t)
unfolding BtreeMap.insert
insert-Fits key value [] p h = (p, tt)
insert-Fits key value ((j, w) ∷ t) p h =
    ground (arith, insert-Fits key value t p h.1, same_key-Fits key j value p)

pub insert_attributes-Fits :
    (attributes : List (Str × Option Str)) (t t' : TxtData)
    → All Fits t
    → insert_attributes attributes t ≡ ok t'
    → All Fits t'
unfolding insert_attributes
insert_attributes-Fits [] t t' h e = let same : t ≡ t' = ground arith in subst (All Fits) same h
insert_attributes-Fits ((key, value) ∷ rest) t t' h e =
    checked (validate_txt_attribute key value) refl e (λ p.
      insert_attributes-Fits rest (BtreeMap.insert key value t) t' (insert-Fits key value t p h))
  where
    checked :
        (r : TxtResult (Unit {0}))
        → validate_txt_attribute key value ≡ r
        → elim r as (λ _. TxtResult TxtData) [
          | err x ↦ err x
          | ok _ ↦ insert_attributes rest (BtreeMap.insert key value t)
        ]
          ≡ ok t'
        → (Fits (key, value)
            → insert_attributes rest (BtreeMap.insert key value t) ≡ ok t'
            → All Fits t')
        → All Fits t'
    checked (ok u) q e later = later (validate-Fits key value q) e
    checked (err x) q e later = cc

-- When `with_txt_attributes` accepts attributes, then those of the node, if they did so before, have
-- keys that are not empty, and are 255 bytes at most as the strings of the TXT record.
pub with_txt_attributes-Fits :
    (now : Instant) (attributes : List (Str × Option Str)) (d d' : Discoverer)
    → All Fits (my_txt d)
    → with_txt_attributes now attributes d ≡ ok d'
    → All Fits (my_txt d')
unfolding with_txt_attributes update_me
with_txt_attributes-Fits now attributes d d' h e =
    taken (insert_attributes attributes (my_txt d)) refl e
  where
    changed : TxtData → Discoverer
    changed t = update_me now (λ me. record me { txt = t }) d

    is_changed : (t : TxtData) → my_txt (changed t) ≡ t
    is_changed t =
        ap (λ o. elim o as (λ _. TxtData) [ none ↦ BtreeMap.empty | some me ↦ me.txt ])
          (get_inserted d.peer_id _ d.peers)

    taken :
        (r : TxtResult TxtData)
        → insert_attributes attributes (my_txt d) ≡ r
        → elim r as (λ _. TxtResult Discoverer) [ err x ↦ err x | ok t ↦ ok (changed t) ] ≡ ok d'
        → All Fits (my_txt d')
    taken (ok t) q e' =
        let same : changed t ≡ d' = ground arith in
        subst (λ x. All Fits (my_txt x)) same
          (subst (All Fits) (sym (is_changed t))
            (insert_attributes-Fits attributes (my_txt d) t h q))
    taken (err x) q e' = cc
