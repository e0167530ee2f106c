-- ===== src/Std/BtreeMap.antt =====
-- `BTreeMap`: the list of its entries, in the order of their keys.
pub mod Laws
use swarm_discovery.Prelude.{
  ℕ, lt, eq, gt, Bool, true, false, List, [], ◌∷◌, Option, none, some, length,
}
use swarm_discovery.Std.Ord.{Ord}
use swarm_discovery.Std.Sort.{IsAscending}

abbrev pub BtreeMap {ℓ κ} : Type ℓ → Type κ → Type (ℓ ⊔ κ)
BtreeMap K V = List (K × V)

abbrev pub empty {ℓ κ} : {K : Type ℓ} {V : Type κ} → BtreeMap K V
empty = []

abbrev pub len {ℓ κ} : {K : Type ℓ} {V : Type κ} → BtreeMap K V → ℕ
len m = length m

abbrev pub keys {ℓ κ} : {K : Type ℓ} {V : Type κ} → BtreeMap K V → List K
keys [] = []
keys ((k, v) ∷ m) = k ∷ keys m

module _ {ℓ κ} {K : Type ℓ} {V : Type κ} ⦃o : Ord K⦄ where
  unfoldable pub get : K → BtreeMap K V → Option V
  get k [] = none
  get k ((j, w) ∷ m) = elim (o.cmp k j) [ eq ↦ some w | _ ↦ get k m ]

  abbrev pub contains_key : K → BtreeMap K V → Bool
  contains_key k m = elim (get k m) [ none ↦ false | some _ ↦ true ]

  -- A key that is there already is kept, and its value replaced.
  unfoldable pub insert : K → V → BtreeMap K V → BtreeMap K V
  insert k v [] = (k, v) ∷ []
  insert k v ((j, w) ∷ m) = elim (o.cmp k j) [
    | lt ↦ (k, v) ∷ (j, w) ∷ m
    | eq ↦ (j, v) ∷ m
    | gt ↦ (j, w) ∷ insert k v m
  ]

  unfoldable pub remove : K → BtreeMap K V → BtreeMap K V
  remove k [] = []
  remove k ((j, w) ∷ m) = elim (o.cmp k j) [ eq ↦ m | _ ↦ (j, w) ∷ remove k m ]

  -- `entry(k).or_insert_with(|| d)`, whose value is then changed by `f`.
  abbrev pub entry_or_insert : K → V → (V → V) → BtreeMap K V → BtreeMap K V
  entry_or_insert k d f m = insert k (f (elim (get k m) [ none ↦ d | some v ↦ v ])) m

  -- `if let Some(v) = get_mut(k) { f(v) }`
  abbrev pub get_mut : K → (V → V) → BtreeMap K V → BtreeMap K V
  get_mut k f m = elim (get k m) [ none ↦ m | some v ↦ insert k (f v) m ]

  -- The entries stand in strict order of their keys.
  abbrev pub IsOrdered : BtreeMap K V → Type 0
  IsOrdered m = IsAscending (keys m)
