-- ===== src/Std/Sort.antt =====
-- `sort_unstable` and `dedup` of a vector. A total order has one sorted permutation up to elements
-- that compare equal, so insertion stands for the library's sort.
pub mod Laws
pub mod Elements
use swarm_discovery.Prelude.{eq, gt, Bool, true, false, ◌||◌, List, [], ◌∷◌, All, if◌then◌else◌}
use swarm_discovery.Std.Ord.{Ord, is_eq, ◌≺◌}

module _ {ℓ} {A : Type ℓ} ⦃a : Ord A⦄ where
  unfoldable pub sort_insert : A → List A → List A
  sort_insert x [] = x ∷ []
  sort_insert x (y ∷ ys) = elim (a.cmp x y) [ gt ↦ y ∷ sort_insert x ys | _ ↦ x ∷ y ∷ ys ]

  unfoldable pub sort_unstable : List A → List A
  unfolding sort_insert
  sort_unstable [] = []
  sort_unstable (x ∷ xs) = sort_insert x (sort_unstable xs)

  -- Drops what equals the last element that was kept.
  unfoldable pub dedup_after : A → List A → List A
  dedup_after x [] = []
  dedup_after x (y ∷ ys) = elim (a.cmp x y) [ eq ↦ dedup_after x ys | _ ↦ y ∷ dedup_after y ys ]

  unfoldable pub dedup : List A → List A
  unfolding dedup_after
  dedup [] = []
  dedup (x ∷ xs) = x ∷ dedup_after x xs

  unfoldable pub contains : A → List A → Bool
  contains x [] = false
  contains x (y ∷ ys) = is_eq (a.cmp x y) || contains x ys

  -- `x` stands below every element, strictly.
  abbrev pub Below : A → List A → Type 0
  Below x ys = All (λ y. x ≺ y) ys

  abbrev pub IsAscending : List A → Type 0
  IsAscending [] = Unit
  IsAscending (x ∷ xs) = Below x xs × IsAscending xs

-- `Vec::retain` and, on a map's entries, `BTreeMap::retain`.
unfoldable pub retain {ℓ} : {A : Type ℓ} → (A → Bool) → List A → List A
retain keep [] = []
retain keep (x ∷ xs) = if keep x then x ∷ retain keep xs else retain keep xs
