-- ===== src/Std/HashMap.antt =====
-- `HashMap`: its entries in the order of iteration, which the library leaves open. A new key is put
-- last here, and no theorem depends on that.
use swarm_discovery.Prelude.{
  eq, ◌≡◌, Bool, true, false, List, [], ◌∷◌, Option, none, some, arith, if◌then◌else◌,
}
use swarm_discovery.Std.Ord.{Ord, is_eq, cmp_congr_right}

abbrev pub HashMap {ℓ κ} : Type ℓ → Type κ → Type (ℓ ⊔ κ)
HashMap K V = List (K × V)

abbrev pub empty {ℓ κ} : {K : Type ℓ} {V : Type κ} → HashMap K V
empty = []

abbrev pub keys {ℓ κ} : {K : Type ℓ} {V : Type κ} → HashMap K V → List K
keys [] = []
keys ((k, v) ∷ m) = k ∷ keys m

-- Keys are compared by `Eq`, which agrees with `Ord`.
module _ {ℓ κ} {K : Type ℓ} {V : Type κ} ⦃o : Ord K⦄ where
  unfoldable pub get : K → HashMap K V → Option V
  get k [] = none
  get k ((j, w) ∷ m) = elim (o.cmp k j) [ eq ↦ some w | _ ↦ get k m ]

  abbrev pub contains_key : K → HashMap K V → Bool
  contains_key k m = elim (get k m) [ none ↦ false | some _ ↦ true ]

  unfoldable pub insert : K → V → HashMap K V → HashMap K V
  insert k v [] = (k, v) ∷ []
  insert k v ((j, w) ∷ m) = elim (o.cmp k j) [ eq ↦ (j, v) ∷ m | _ ↦ (j, w) ∷ insert k v m ]

  unfoldable pub remove : K → HashMap K V → HashMap K V
  remove k [] = []
  remove k ((j, w) ∷ m) = elim (o.cmp k j) [ eq ↦ remove k m | _ ↦ (j, w) ∷ remove k m ]

  pub get-insert :
      (j k : K) (v : V) (m : HashMap K V)
      → get j (insert k v m) ≡ (if is_eq (o.cmp j k) then some v else get j m)
  unfolding get insert
  get-insert j k v [] = ground arith
  get-insert j k v ((i, w) ∷ m) =
      ground (arith, get-insert j k v m, cmp_congr_right j k i, o.cmp_congr j k i)

  pub get-remove :
      (j k : K) (m : HashMap K V)
      → get j (remove k m) ≡ (if is_eq (o.cmp j k) then none else get j m)
  unfolding get remove
  get-remove j k [] = ground arith
  get-remove j k ((i, w) ∷ m) =
      ground (arith, get-remove j k m, cmp_congr_right j k i, o.cmp_congr j k i)
