-- ===== src/Tests/Names.antt =====
-- Names as texts with a dot after each label, which show that the names of a service can be as the
-- library of names should make them.
use mathlib.Core.List.{reverse_aux}
use swarm_discovery.Prelude.{
  ℕ, zero, suc, ◌/◌, ◌≡◌, refl, List, [], ◌∷◌, ◌++◌, Option, none, some, ltb, arith, Bool-cases,
  inl, inr,
}
use swarm_discovery.Std.Ord.{list_ord, nat_ord, list_cmp-IsExact, list_cmp, compare-IsExact}
use swarm_discovery.Std.Text.{Str, codes, split_once, decimal, digits_rev}
use swarm_discovery.Std.Text.Laws.{Lacks, split_once-append, decimal_injective}
use swarm_discovery.Dns.{NameApi}
use swarm_discovery.Sender.Response.{target_text}
use swarm_discovery.Wire.Names.{ServiceNames}

abbrev dot : ℕ
dot = 46

abbrev rest_of : Option (Str × Str) → Str
rest_of none = []
rest_of (some (label, rest)) = rest

abbrev label_of : Option (Str × Str) → Option (List ℕ)
label_of none = none
label_of (some (label, rest)) = some label

abbrev pub texts : NameApi Str
texts = record {
  order = list_ord;
  from_str = some;
  append_domain = λ name domain. some (name ++ dot ∷ domain);
  base_name = λ name. rest_of (split_once dot name);
  first_label = λ name. label_of (split_once dot name);
}

abbrev pub node_id : Str
node_id = codes "n1"

abbrev pub service : Str
service = codes "_x._udp.local."

digits_rev-Lacks : (fuel n : ℕ) → Lacks dot (digits_rev fuel n)
unfolding digits_rev
digits_rev-Lacks zero n = tt
digits_rev-Lacks (suc fuel) n = elim (Bool-cases (ltb n 10)) [
  | inl few ↦ rw few (ground arith)
  | inr more ↦ rw more (ground arith, digits_rev-Lacks fuel (n / 10))
]

reverse_aux-Lacks : (s t : Str) → Lacks dot s → Lacks dot t → Lacks dot (reverse_aux s t)
reverse_aux-Lacks [] t h k = k
reverse_aux-Lacks (b ∷ s) t h k = reverse_aux-Lacks s (b ∷ t) h.1 (h.0, k)

decimal-Lacks : (n : ℕ) → Lacks dot (decimal n)
unfolding decimal
decimal-Lacks n = reverse_aux-Lacks (digits_rev (suc n) n) [] (digits_rev-Lacks (suc n) n) tt

Lacks-append : (s t : Str) → Lacks dot s → Lacks dot t → Lacks dot (s ++ t)
Lacks-append [] t h k = k
Lacks-append (b ∷ s) t h k = (h.0, Lacks-append s t h.1 k)

append-cancel : (s t u : Str) → s ++ t ≡ s ++ u → t ≡ u
append-cancel [] t u e = e
append-cancel (b ∷ s) t u e = append-cancel s t u (cc e)

module _ (id : Str) (one_label : Lacks dot id) where
  abbrev label_of_target : ℕ → Str
  label_of_target p = id ++ codes "-" ++ decimal p

  split_target :
      (p : ℕ) → split_once dot (target_text id p) ≡ some (label_of_target p, codes "local.")
  split_target p = split_once-append dot (label_of_target p) (codes "local.") (
      Lacks-append (id ++ codes "-") (decimal p) (Lacks-append id (codes "-") one_label (refl, tt))
        (decimal-Lacks p))

  same_label : (p q : ℕ) → label_of_target p ≡ label_of_target q → decimal p ≡ decimal q
  same_label p q h = append-cancel (id ++ codes "-") (decimal p) (decimal q) h

  -- The names of the service `_x._udp` for a node whose identifier is one label.
  pub texts_lem : ServiceNames texts id service
  unfolding list_ord list_cmp nat_ord
  texts_lem = record {
    local = codes "local.";
    own = id ++ dot ∷ service;
    target = target_text id;
    local_parsed = refl;
    own_parsed = refl;
    own_label = rw (split_once-append dot id service one_label) refl;
    own_base = rw (split_once-append dot id service one_label) refl;
    target_parsed = λ p h. refl;
    target_base = λ p h. rw (split_target p) refl;
    target_injective = λ p q h k e.
        let same : target_text id p ≡ target_text id q =
          list_cmp-IsExact compare-IsExact (target_text id p) (target_text id q) e in
        decimal_injective p q (same_label p q (cc (split_target p, split_target q)));
  }

-- The names of the service for the node `n1`.
pub texts-ServiceNames : ServiceNames texts node_id service
texts-ServiceNames = texts_lem node_id (refl, (refl, tt))
