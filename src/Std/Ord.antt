-- ===== src/Std/Ord.antt =====
-- The trait `Ord`, with the laws that it asks of `cmp`. A key type may have keys that compare equal
-- and differ, as DNS names do; `IsExact` is said of those types that have none.
use swarm_discovery.Prelude.{
  ℕ, compare, Ordering, lt, eq, gt, ◌≡◌, refl, Bool, true, false, List, [], ◌∷◌, arith,
}

abbrev pub flip : Ordering → Ordering
flip lt = gt
flip eq = eq
flip gt = lt

abbrev pub then : Ordering → Ordering → Ordering
then eq second = second
then first _ = first

abbrev pub is_eq : Ordering → Bool
is_eq eq = true
is_eq _ = false

pub record IsLawful {ℓ} {K : Type ℓ} (cmp : K → K → Ordering) : Type ℓ where
  pub cmp_refl : (a : K) → cmp a a ≡ eq
  pub cmp_flip : (a b : K) → cmp b a ≡ flip (cmp a b)
  pub lt_trans : (a b c : K) → cmp a b ≡ lt → cmp b c ≡ lt → cmp a c ≡ lt
  pub cmp_congr : (a b c : K) → cmp a b ≡ eq → cmp a c ≡ cmp b c

pub record Ord {ℓ} (K : Type ℓ) : Type ℓ where
  pub cmp : K → K → Ordering
  pub lawful : IsLawful cmp
  pub open lawful use *

-- Keys that compare equal are the same key.
abbrev pub IsExact {ℓ} : {K : Type ℓ} → (K → K → Ordering) → Type ℓ
IsExact {K} cmp = (a b : K) → cmp a b ≡ eq → a ≡ b

pub compare-IsLawful : IsLawful compare
compare-IsLawful = ground arith

pub compare-IsExact : IsExact compare
compare-IsExact = ground arith

instance unfoldable pub nat_ord : Ord ℕ
nat_ord = record { cmp = compare; lawful = compare-IsLawful }

infix 50 ◌≺◌
abbrev pub ◌≺◌ {ℓ} : {K : Type ℓ} ⦃o : Ord K⦄ → K → K → Type 0
◌≺◌ ⦃o⦄ x y = o.cmp x y ≡ lt

module _ {ℓ} {K : Type ℓ} ⦃o : Ord K⦄ where
  pub cmp_congr_right : (a b c : K) → o.cmp b c ≡ eq → o.cmp a b ≡ o.cmp a c
  cmp_congr_right a b c h = ground (arith, o.cmp_flip b a, o.cmp_congr b c a, o.cmp_flip c a)

-- Tuples compare field by field.
module _ {ℓ κ} {A : Type ℓ} {B : Type κ} ⦃a : Ord A⦄ ⦃b : Ord B⦄ where
  abbrev pub pair_cmp : A × B → A × B → Ordering
  pair_cmp p q = then (a.cmp p.0 q.0) (b.cmp p.1 q.1)

  pub pair_cmp-IsLawful : IsLawful {K = A × B} pair_cmp
  pair_cmp-IsLawful = record {
    cmp_refl = λ p. simp (b.cmp_refl, a.cmp_refl);
    cmp_flip = λ x y. ground (arith, a.cmp_flip x.0 y.0, b.cmp_flip x.1 y.1);
    cmp_congr = λ x y z. ground (arith, a.cmp_congr x.0 y.0 z.0, b.cmp_congr x.1 y.1 z.1);
    lt_trans = λ x y z. ground (
      arith,
      a.lt_trans x.0 y.0 z.0,
      b.lt_trans x.1 y.1 z.1,
      a.cmp_congr x.0 y.0 z.0,
      cmp_congr_right x.0 y.0 z.0,
    );
  }

  instance unfoldable pub pair_ord : Ord (A × B)
  pair_ord = record { cmp = pair_cmp; lawful = pair_cmp-IsLawful }

  pub pair_cmp-IsExact : IsExact a.cmp → IsExact b.cmp → IsExact {K = A × B} pair_cmp
  pair_cmp-IsExact p q x y h = ground (arith, p x.0 y.0, q x.1 y.1)

-- Slices and strings compare element by element; a proper prefix comes first.
module _ {ℓ} {A : Type ℓ} ⦃a : Ord A⦄ where
  unfoldable pub list_cmp : List A → List A → Ordering
  list_cmp [] [] = eq
  list_cmp [] (y ∷ ys) = lt
  list_cmp (x ∷ xs) [] = gt
  list_cmp (x ∷ xs) (y ∷ ys) = then (a.cmp x y) (list_cmp xs ys)

  list_cmp_refl : (xs : List A) → list_cmp xs xs ≡ eq
  unfolding list_cmp
  list_cmp_refl [] = refl
  list_cmp_refl (x ∷ xs) = ground (arith, a.cmp_refl x, list_cmp_refl xs)

  list_cmp-flip : (xs ys : List A) → list_cmp ys xs ≡ flip (list_cmp xs ys)
  unfolding list_cmp
  list_cmp-flip [] [] = refl
  list_cmp-flip [] (y ∷ ys) = refl
  list_cmp-flip (x ∷ xs) [] = refl
  list_cmp-flip (x ∷ xs) (y ∷ ys) = ground (arith, a.cmp_flip x y, list_cmp-flip xs ys)

  list_cmp_congr : (xs ys zs : List A) → list_cmp xs ys ≡ eq → list_cmp xs zs ≡ list_cmp ys zs
  unfolding list_cmp
  list_cmp_congr [] [] zs h = refl
  list_cmp_congr [] (y ∷ ys) zs h = cc
  list_cmp_congr (x ∷ xs) [] zs h = cc
  list_cmp_congr (x ∷ xs) (y ∷ ys) [] h = refl
  list_cmp_congr (x ∷ xs) (y ∷ ys) (z ∷ zs) h =
      ground (arith, a.cmp_congr x y z, list_cmp_congr xs ys zs)

  list_cmp_trans :
      (xs ys zs : List A) → list_cmp xs ys ≡ lt → list_cmp ys zs ≡ lt → list_cmp xs zs ≡ lt
  unfolding list_cmp
  list_cmp_trans [] [] zs h k = cc
  list_cmp_trans [] (y ∷ ys) [] h k = cc
  list_cmp_trans [] (y ∷ ys) (z ∷ zs) h k = refl
  list_cmp_trans (x ∷ xs) [] zs h k = cc
  list_cmp_trans (x ∷ xs) (y ∷ ys) [] h k = cc
  list_cmp_trans (x ∷ xs) (y ∷ ys) (z ∷ zs) h k =
      ground
        (arith, a.lt_trans x y z, a.cmp_congr x y z, cmp_congr_right x y z, list_cmp_trans xs ys zs)

  pub list_cmp-IsLawful : IsLawful list_cmp
  list_cmp-IsLawful = record {
    cmp_refl = list_cmp_refl;
    cmp_flip = list_cmp-flip;
    cmp_congr = list_cmp_congr;
    lt_trans = list_cmp_trans;
  }

  instance unfoldable pub list_ord : Ord (List A)
  list_ord = record { cmp = list_cmp; lawful = list_cmp-IsLawful }

  pub list_cmp-IsExact : IsExact a.cmp → IsExact list_cmp
  unfolding list_cmp
  list_cmp-IsExact p [] [] h = refl
  list_cmp-IsExact p [] (y ∷ ys) h = cc
  list_cmp-IsExact p (x ∷ xs) [] h = cc
  list_cmp-IsExact p (x ∷ xs) (y ∷ ys) h = ground (arith, p x y, list_cmp-IsExact p xs ys)
