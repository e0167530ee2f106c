-- ===== src/Std/Sort/Elements.antt =====
-- What holds of all elements holds of them when they are sorted, or some are dropped.
use swarm_discovery.Prelude.{Bool, Ordering, lt, eq, gt, List, [], ◌∷◌, All, arith}
use swarm_discovery.Std.Ord.{Ord}
use swarm_discovery.Std.Sort.{sort_insert, sort_unstable, dedup_after, dedup, retain}

pub All-retain {ℓ κ} :
    {A : Type ℓ} (P : A → Type κ) (keep : A → Bool) (xs : List A)
    → All P xs
    → All P (retain keep xs)
unfolding retain
All-retain P keep [] h = tt
All-retain P keep (x ∷ xs) h = ground (arith, All-retain P keep xs h.1)

module _ {ℓ κ} {A : Type ℓ} ⦃a : Ord A⦄ (P : A → Type κ) where
  All-sort_insert : (x : A) (ys : List A) → P x → All P ys → All P (sort_insert x ys)
  unfolding sort_insert
  All-sort_insert x [] p h = (p, tt)
  All-sort_insert x (y ∷ ys) p h = ground (arith, All-sort_insert x ys)

  pub All-sort_unstable : (xs : List A) → All P xs → All P (sort_unstable xs)
  unfolding sort_unstable
  All-sort_unstable [] h = tt
  All-sort_unstable (x ∷ xs) h = All-sort_insert x (sort_unstable xs) h.0 (All-sort_unstable xs h.1)

  All-dedup_after : (x : A) (ys : List A) → All P ys → All P (dedup_after x ys)
  unfolding dedup_after
  All-dedup_after x [] h = tt
  All-dedup_after x (y ∷ ys) h =
      compared (a.cmp x y) (All-dedup_after x ys h.1) (h.0, All-dedup_after y ys h.1)
    where
      compared :
          (c : Ordering)
          → All P (dedup_after x ys)
          → All P (y ∷ dedup_after y ys)
          → All P (elim c as (λ _. List A) [ eq ↦ dedup_after x ys | _ ↦ y ∷ dedup_after y ys ])
      compared eq k l = k
      compared lt k l = l
      compared gt k l = l

  pub All-dedup : (xs : List A) → All P xs → All P (dedup xs)
  unfolding dedup
  All-dedup [] h = tt
  All-dedup (x ∷ xs) h = (h.0, All-dedup_after x xs h.1)
