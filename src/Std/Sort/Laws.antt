-- ===== src/Std/Sort/Laws.antt =====
-- Sorting and dropping repeated elements keeps the members, and leaves them in strict order.
use swarm_discovery.Prelude.{
  Ordering, eq, gt, ◌≡◌, refl, ◌∙◌, Bool, true, false, ◌||◌, ◌&&◌, List, [], ◌∷◌, ◌++◌, arith, All,
  All-imp,
}
use swarm_discovery.Std.Ord.{Ord, IsExact, is_eq, ◌≺◌, cmp_congr_right}
use swarm_discovery.Std.Text.{is_empty}
use swarm_discovery.Std.Sort.{
  sort_insert, sort_unstable, dedup_after, dedup, contains, Below, IsAscending, retain,
}

abbrev not_gt : Ordering → Bool
not_gt gt = false
not_gt _ = true

module _ {ℓ} {A : Type ℓ} ⦃a : Ord A⦄ where
  -- In order, with equal elements side by side.
  abbrev IsSorted : List A → Type 0
  IsSorted [] = Unit
  IsSorted (x ∷ xs) = All (λ y. not_gt (a.cmp x y) ≡ true) xs × IsSorted xs

  not_gt_trans :
      (x y z : A)
      → not_gt (a.cmp x y) ≡ true
      → not_gt (a.cmp y z) ≡ true
      → not_gt (a.cmp x z) ≡ true
  not_gt_trans x y z h k =
      ground (arith, a.lt_trans x y z, a.cmp_congr x y z, cmp_congr_right x y z)

  contains-sort_insert :
      (z x : A) (ys : List A) → contains z (sort_insert x ys) ≡ (is_eq (a.cmp z x) || contains z ys)
  unfolding contains sort_insert
  contains-sort_insert z x [] = refl
  contains-sort_insert z x (y ∷ ys) = ground (arith, contains-sort_insert z x ys)

  pub contains-sort_unstable : (z : A) (xs : List A) → contains z (sort_unstable xs) ≡ contains z xs
  unfolding sort_unstable contains
  contains-sort_unstable z [] = refl
  contains-sort_unstable z (x ∷ xs) =
      ground (arith, contains-sort_insert z x (sort_unstable xs), contains-sort_unstable z xs)

  contains-dedup_after :
      (z x : A) (ys : List A) → contains z (x ∷ dedup_after x ys) ≡ contains z (x ∷ ys)
  unfolding contains dedup_after
  contains-dedup_after z x [] = refl
  contains-dedup_after z x (y ∷ ys) =
      ground
        (arith, cmp_congr_right z x y, contains-dedup_after z x ys, contains-dedup_after z y ys)

  pub contains-dedup : (z : A) (xs : List A) → contains z (dedup xs) ≡ contains z xs
  unfolding dedup
  contains-dedup z [] = refl
  contains-dedup z (x ∷ xs) = contains-dedup_after z x xs

  All-sort_insert {κ} :
      (P : A → Type κ) (x : A) (ys : List A) → P x → All P ys → All P (sort_insert x ys)
  unfolding sort_insert
  All-sort_insert P x [] p h = (p, tt)
  All-sort_insert P x (y ∷ ys) p h = ground (arith, All-sort_insert P x ys)

  sort_insert-IsSorted : (x : A) (ys : List A) → IsSorted ys → IsSorted (sort_insert x ys)
  unfolding sort_insert
  sort_insert-IsSorted x [] h = (tt, tt)
  sort_insert-IsSorted x (y ∷ ys) h = ground (
    arith,
    a.cmp_flip x y,
    sort_insert-IsSorted x ys,
    All-sort_insert (λ w. not_gt (a.cmp y w) ≡ true) x ys,
    λ (e : not_gt (a.cmp x y) ≡ true). All-imp (λ w. not_gt_trans x y w e) ys,
  )

  pub sort_unstable-IsSorted : (xs : List A) → IsSorted (sort_unstable xs)
  unfolding sort_unstable
  sort_unstable-IsSorted [] = tt
  sort_unstable-IsSorted (x ∷ xs) =
      sort_insert-IsSorted x (sort_unstable xs) (sort_unstable-IsSorted xs)

  Below-dedup_after :
      (w x : A) (ys : List A) → w ≺ x → IsSorted (x ∷ ys) → Below w (dedup_after x ys)
  unfolding dedup_after
  Below-dedup_after w x [] h s = tt
  Below-dedup_after w x (y ∷ ys) h s = ground (
    arith,
    a.lt_trans w x y,
    cmp_congr_right w x y,
    Below-dedup_after w x ys,
    Below-dedup_after w y ys,
  )

  dedup_after-IsAscending :
      (x : A) (ys : List A) → IsSorted (x ∷ ys) → IsAscending (x ∷ dedup_after x ys)
  unfolding dedup_after
  dedup_after-IsAscending x [] s = (tt, tt)
  dedup_after-IsAscending x (y ∷ ys) s =
      ground (
        arith,
        dedup_after-IsAscending x ys,
        dedup_after-IsAscending y ys,
        Below-dedup_after x y ys,
      )

  dedup-IsAscending : (xs : List A) → IsSorted xs → IsAscending (dedup xs)
  unfolding dedup
  dedup-IsAscending [] s = tt
  dedup-IsAscending (x ∷ xs) s = dedup_after-IsAscending x xs s

  -- `sort_unstable` then `dedup` leaves a strictly ascending vector.
  pub dedup-sort_unstable-IsAscending : (xs : List A) → IsAscending (dedup (sort_unstable xs))
  dedup-sort_unstable-IsAscending xs =
      dedup-IsAscending (sort_unstable xs) (sort_unstable-IsSorted xs)

  pub contains-dedup-sort_unstable :
      (z : A) (xs : List A) → contains z (dedup (sort_unstable xs)) ≡ contains z xs
  contains-dedup-sort_unstable z xs =
      contains-dedup z (sort_unstable xs) ∙ contains-sort_unstable z xs

  pub contains-append :
      (z : A) (xs ys : List A) → contains z (xs ++ ys) ≡ (contains z xs || contains z ys)
  unfolding contains
  contains-append z [] ys = refl
  contains-append z (x ∷ xs) ys = ground (arith, contains-append z xs ys)

  pub not-contains-Below : (z : A) (xs : List A) → Below z xs → contains z xs ≡ false
  unfolding contains
  not-contains-Below z [] h = refl
  not-contains-Below z (x ∷ xs) h = ground (arith, not-contains-Below z xs h.1)

  pub Below-retain : (z : A) (keep : A → Bool) (xs : List A) → Below z xs → Below z (retain keep xs)
  unfolding retain
  Below-retain z keep [] h = tt
  Below-retain z keep (x ∷ xs) h = ground (arith, Below-retain z keep xs)

  pub retain-IsAscending :
      (keep : A → Bool) (xs : List A) → IsAscending xs → IsAscending (retain keep xs)
  unfolding retain
  retain-IsAscending keep [] h = tt
  retain-IsAscending keep (x ∷ xs) h =
      ground (arith, retain-IsAscending keep xs, Below-retain x keep xs)

  -- A filter that cannot tell equal elements apart keeps exactly the members that pass it.
  pub contains-retain :
      (z : A) (keep : A → Bool)
      → ((x : A) → a.cmp z x ≡ eq → keep x ≡ keep z)
      → (xs : List A) → contains z (retain keep xs) ≡ (keep z && contains z xs)
  unfolding contains retain
  contains-retain z keep same [] = ground arith
  contains-retain z keep same (x ∷ xs) = ground (arith, same x, contains-retain z keep same xs)

  -- What compares below an element of an ascending vector's head is not in it.
  Below-trans : (x y : A) (ys : List A) → x ≺ y → Below y ys → Below x ys
  Below-trans x y ys h = All-imp (λ z. a.lt_trans x y z h) ys

  pub not-contains_head : (x y : A) (ys : List A) → x ≺ y → Below y ys → contains x (y ∷ ys) ≡ false
  not-contains_head x y ys h b = not-contains-Below x (y ∷ ys) (h, Below-trans x y ys h b)

  not-contains_equal : (z x : A) (xs : List A) → a.cmp z x ≡ eq → Below x xs → contains z xs ≡ false
  not-contains_equal z x xs h b =
      not-contains-Below z xs (All-imp (λ y p. a.cmp_congr z x y h ∙ p) xs b)

  heads_equal :
      (x y : A) (xs ys : List A)
      → Below x xs
      → Below y ys
      → contains x (x ∷ xs) ≡ contains x (y ∷ ys)
      → contains y (x ∷ xs) ≡ contains y (y ∷ ys)
      → a.cmp x y ≡ eq
  heads_equal x y xs ys bx by hx hy = ground (
    arith,
    self x xs,
    self y ys,
    not-contains_head x y ys,
    not-contains_head y x xs,
    a.cmp_flip x y,
  )
    where
      self : (w : A) (ws : List A) → contains w (w ∷ ws) ≡ true
      self w ws = unfold contains in (rw (a.cmp_refl w))

  tails_same :
      (z x y : A) (xs ys : List A)
      → a.cmp x y ≡ eq
      → Below x xs
      → Below y ys
      → contains z (x ∷ xs) ≡ contains z (y ∷ ys)
      → contains z xs ≡ contains z ys
  unfolding contains
  tails_same z x y xs ys e bx by h =
      ground (arith, cmp_congr_right z x y e, not-contains_equal z x xs, not-contains_equal z y ys)

  -- Two ascending vectors with the same members are equal.
  pub IsAscending-ext :
      IsExact a.cmp
      → (xs ys : List A) → IsAscending xs
      → IsAscending ys
      → ((z : A) → contains z xs ≡ contains z ys)
      → xs ≡ ys
  unfolding contains
  IsAscending-ext exact [] [] p q h = refl
  IsAscending-ext exact [] (y ∷ ys) p q h = ground (arith, h y, a.cmp_refl y)
  IsAscending-ext exact (x ∷ xs) [] p q h = ground (arith, h x, a.cmp_refl x)
  IsAscending-ext exact (x ∷ xs) (y ∷ ys) p q h =
      let e = heads_equal x y xs ys p.0 q.0 (h x) (h y) in
      cc (
        exact x y e,
        IsAscending-ext exact xs ys p.1 q.1 (λ z. tails_same z x y xs ys e p.0 q.0 (h z)),
      )

  is_empty-sort_insert : (x : A) (ys : List A) → is_empty (sort_insert x ys) ≡ false
  unfolding sort_insert
  is_empty-sort_insert x [] = refl
  is_empty-sort_insert x (y ∷ ys) = ground arith

  is_empty-dedup : (xs : List A) → is_empty (dedup xs) ≡ is_empty xs
  unfolding dedup
  is_empty-dedup [] = refl
  is_empty-dedup (x ∷ xs) = refl

  -- What is not empty stays so.
  pub is_empty-dedup-sort_unstable :
      (x : A) (xs : List A) → is_empty (dedup (sort_unstable (x ∷ xs))) ≡ false
  unfolding sort_unstable
  is_empty-dedup-sort_unstable x xs =
      is_empty-dedup (sort_insert x (sort_unstable xs)) ∙ is_empty-sort_insert x (sort_unstable xs)
