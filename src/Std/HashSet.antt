-- ===== src/Std/HashSet.antt =====
-- `HashSet`, as the keys of a hash map.
use swarm_discovery.Prelude
use swarm_discovery.Prelude.{
  ℕ, ◌≡◌, refl, Bool, true, false, not, ◌&&◌, ◌||◌, List, [], ◌∷◌, Option, none, some, arith,
  if◌then◌else◌,
}
use swarm_discovery.Std.HashMap
use swarm_discovery.Std.HashMap.{HashMap}
use swarm_discovery.Std.Ord.{Ord, is_eq, nat_ord}
use swarm_discovery.Std.Sort

abbrev pub HashSet {ℓ} : Type ℓ → Type ℓ
HashSet K = HashMap K (Unit {0})

module _ {ℓ} {K : Type ℓ} ⦃o : Ord K⦄ where
  abbrev pub contains : K → HashSet K → Bool
  contains k s = HashMap.contains_key k s

  -- The set after `insert`, without whether the key is new.
  abbrev pub insert : K → HashSet K → HashSet K
  insert k s = HashMap.insert k tt s

  abbrev pub remove : K → HashSet K → HashSet K
  remove k s = HashMap.remove k s

  -- `collect` into a set
  unfoldable pub from_list : List K → HashSet K → HashSet K
  from_list [] s = s
  from_list (k ∷ ks) s = from_list ks (insert k s)

  -- What `difference` iterates over.
  unfoldable pub difference : HashSet K → HashSet K → List K
  difference [] t = []
  difference ((k, u) ∷ s) t = let rest = difference s t in if contains k t then rest else k ∷ rest

  pub contains-insert :
      (j k : K) (s : HashSet K) → contains j (insert k s) ≡ (is_eq (o.cmp j k) || contains j s)
  contains-insert j k s = ground (arith, HashMap.get-insert j k tt s)

  pub contains-remove :
      (j k : K) (s : HashSet K)
      → contains j (remove k s) ≡ (not (is_eq (o.cmp j k)) && contains j s)
  contains-remove j k s = ground (arith, HashMap.get-remove j k s)

  contains-congr : (j k : K) (s : HashSet K) → o.cmp j k ≡ Prelude.eq → contains j s ≡ contains k s
  unfolding HashMap.get
  contains-congr j k [] h = refl
  contains-congr j k ((i, u) ∷ s) h = ground (arith, contains-congr j k s h, o.cmp_congr j k i h)

  pub contains-difference :
      (j : K) (s t : HashSet K)
      → Sort.contains j (difference s t) ≡ (contains j s && not (contains j t))
  unfolding difference Sort.contains HashMap.get
  contains-difference j [] t = refl
  contains-difference j ((k, u) ∷ s) t =
      ground (arith, contains-difference j s t, contains-congr j k t)

  pub contains-from_list :
      (j : K) (ks : List K) (s : HashSet K)
      → contains j (from_list ks s) ≡ (Sort.contains j ks || contains j s)
  unfolding from_list Sort.contains
  contains-from_list j [] s = refl
  contains-from_list j (k ∷ ks) s =
      ground (arith, contains-from_list j ks (insert k s), contains-insert j k s)

  abbrev pub AreDistinct : List K → Type 0
  AreDistinct [] = Unit
  AreDistinct (k ∷ ks) = (Sort.contains k ks ≡ false) × AreDistinct ks

  abbrev pub members : HashSet K → List K
  members s = HashMap.keys s

  contains-members : (j : K) (s : HashSet K) → Sort.contains j (members s) ≡ contains j s
  unfolding Sort.contains HashMap.get
  contains-members j [] = refl
  contains-members j ((k, u) ∷ s) = ground (arith, contains-members j s)

  insert-AreDistinct :
      (k : K) (s : HashSet K) → AreDistinct (members s) → AreDistinct (members (insert k s))
  unfolding HashMap.insert Sort.contains
  insert-AreDistinct k [] h = (refl, tt)
  insert-AreDistinct k ((j, u) ∷ s) h = ground (
    arith,
    insert-AreDistinct k s h.1,
    h,
    contains-members j (insert k s),
    contains-members j s,
    contains-insert j k s,
    o.cmp_flip k j,
  )

  pub from_list-AreDistinct :
      (ks : List K) (s : HashSet K)
      → AreDistinct (members s)
      → AreDistinct (members (from_list ks s))
  unfolding from_list
  from_list-AreDistinct [] s h = h
  from_list-AreDistinct (k ∷ ks) s h =
      from_list-AreDistinct ks (insert k s) (insert-AreDistinct k s h)

  pub difference-AreDistinct :
      (s t : HashSet K) → AreDistinct (members s) → AreDistinct (difference s t)
  unfolding difference Sort.contains
  difference-AreDistinct [] t h = tt
  difference-AreDistinct ((k, u) ∷ s) t h =
      ground
        (arith, difference-AreDistinct s t h.1, h, contains-difference k s t, contains-members k s)
