-- ===== src/Std/BtreeMap/Laws.antt =====
-- `BTreeMap` as a function from keys to values.
use swarm_discovery.Prelude.{
  ◌+◌, ◌≤◌, lt, eq, ◌≡◌, refl, ◌∙◌, Bool, [], ◌∷◌, none, some, length, arith, All-imp,
  if◌then◌else◌,
}
use swarm_discovery.Std.Ord.{Ord, is_eq, ◌≺◌, cmp_congr_right}
use swarm_discovery.Std.Sort.{contains, Below, retain}
use swarm_discovery.Std.BtreeMap.{
  BtreeMap, keys, get, insert, remove, contains_key, IsOrdered, entry_or_insert,
}

-- A property of the values.
abbrev pub AllValues {ℓ κ μ} : {K : Type ℓ} {V : Type κ} → (V → Type μ) → BtreeMap K V → Type μ
AllValues P [] = Unit
AllValues P ((k, v) ∷ m) = P v × AllValues P m

pub AllValues-imp {ℓ κ μ ν} :
    {K : Type ℓ} {V : Type κ} {P : V → Type μ} {Q : V → Type ν}
    → ((v : V) → P v → Q v)
    → (m : BtreeMap K V) → AllValues P m
    → AllValues Q m
AllValues-imp f [] h = tt
AllValues-imp f ((k, v) ∷ m) h = (f v h.0, AllValues-imp f m h.1)

module _ {ℓ κ} {K : Type ℓ} {V : Type κ} ⦃o : Ord K⦄ where
  pub get_congr : (j k : K) (m : BtreeMap K V) → o.cmp j k ≡ eq → get j m ≡ get k m
  unfolding get
  get_congr j k [] h = refl
  get_congr j k ((i, w) ∷ m) h = ground (arith, o.cmp_congr j k i h, get_congr j k m h)

  pub get-insert :
      (j k : K) (v : V) (m : BtreeMap K V)
      → get j (insert k v m) ≡ (if is_eq (o.cmp j k) then some v else get j m)
  unfolding get insert
  get-insert j k v [] = ground arith
  get-insert j k v ((i, w) ∷ m) =
      ground (arith, get-insert j k v m, cmp_congr_right j k i, o.cmp_congr j k i)

  pub get-Below : (k : K) (m : BtreeMap K V) → Below k (keys m) → get k m ≡ none
  unfolding get
  get-Below k [] h = refl
  get-Below k ((j, w) ∷ m) h = ground (arith, get-Below k m)

  pub get-remove :
      (j k : K) (m : BtreeMap K V)
      → IsOrdered m
      → get j (remove k m) ≡ (if is_eq (o.cmp j k) then none else get j m)
  unfolding get remove
  get-remove j k [] h = ground arith
  get-remove j k ((i, w) ∷ m) h = ground (
    arith,
    get-remove j k m h.1,
    cmp_congr_right j k i,
    o.cmp_congr j k i,
    λ (e : o.cmp j i ≡ eq). get-Below j m (All-imp (λ y p. o.cmp_congr j i y e ∙ p) (keys m) h.0),
  )

  pub Below-insert :
      (i k : K) (v : V) (m : BtreeMap K V)
      → i ≺ k
      → Below i (keys m)
      → Below i (keys (insert k v m))
  unfolding insert
  Below-insert i k v [] p h = (p, tt)
  Below-insert i k v ((j, w) ∷ m) p h = ground (arith, Below-insert i k v m p)

  pub insert-IsOrdered : (k : K) (v : V) (m : BtreeMap K V) → IsOrdered m → IsOrdered (insert k v m)
  unfolding insert
  insert-IsOrdered k v [] h = (tt, tt)
  insert-IsOrdered k v ((j, w) ∷ m) h = ground (
    arith,
    insert-IsOrdered k v m,
    Below-insert j k v m,
    o.cmp_flip k j,
    λ (e : o.cmp k j ≡ lt). All-imp (λ y. o.lt_trans k j y e) (keys m) h.0,
  )

  Below-remove : (i k : K) (m : BtreeMap K V) → Below i (keys m) → Below i (keys (remove k m))
  unfolding remove
  Below-remove i k [] h = tt
  Below-remove i k ((j, w) ∷ m) h = ground (arith, Below-remove i k m)

  pub remove-IsOrdered : (k : K) (m : BtreeMap K V) → IsOrdered m → IsOrdered (remove k m)
  unfolding remove
  remove-IsOrdered k [] h = tt
  remove-IsOrdered k ((j, w) ∷ m) h = ground (arith, remove-IsOrdered k m, Below-remove j k m)

  -- The number of entries grows by one exactly when the key is new.
  pub len-insert :
      (k : K) (v : V) (m : BtreeMap K V)
      → IsOrdered m
      → length (insert k v m) ≡ (if contains_key k m then length m else length m + 1)
  unfolding get insert
  len-insert k v [] h = refl
  len-insert k v ((j, w) ∷ m) h = ground (
    arith,
    len-insert k v m,
    λ (e : o.cmp k j ≡ lt). get-Below k m (All-imp (λ y. o.lt_trans k j y e) (keys m) h.0),
  )

  pub len-insert_bound : (k : K) (v : V) (m : BtreeMap K V) → length (insert k v m) ≤ 1 + length m
  unfolding insert
  len-insert_bound k v [] = omega arith
  len-insert_bound k v ((j, w) ∷ m) = ground (arith, len-insert_bound k v m)

  pub Below-keys-retain :
      (i : K) (keep : K × V → Bool) (m : BtreeMap K V)
      → Below i (keys m)
      → Below i (keys (retain keep m))
  unfolding retain
  Below-keys-retain i keep [] h = tt
  Below-keys-retain i keep ((j, w) ∷ m) h = ground (arith, Below-keys-retain i keep m)

  pub retain-IsOrdered :
      (keep : K × V → Bool) (m : BtreeMap K V) → IsOrdered m → IsOrdered (retain keep m)
  unfolding retain
  retain-IsOrdered keep [] h = tt
  retain-IsOrdered keep ((j, w) ∷ m) h =
      ground (arith, retain-IsOrdered keep m, Below-keys-retain j keep m)

  pub insert_twice : (k : K) (v w : V) (m : BtreeMap K V) → insert k w (insert k v m) ≡ insert k w m
  unfolding insert
  insert_twice k v w [] = rw (o.cmp_refl, insert) refl
  insert_twice k v w ((j, u) ∷ m) = ground (arith, o.cmp_refl k, insert_twice k v w m)

  pub get_one : (k : K) (v : V) → get k ((k, v) ∷ []) ≡ some v
  unfolding get
  get_one k v = rw (o.cmp_refl, get)

  pub insert_one : (k : K) (v w : V) → insert k v ((k, w) ∷ []) ≡ (k, v) ∷ []
  unfolding insert
  insert_one k v w = rw (o.cmp_refl, insert)

  -- A filter on the values, key by key.
  pub get-retain :
      (j : K) (f : V → Bool) (m : BtreeMap K V)
      → IsOrdered m
      → get j (retain (λ e. f e.1) m)
        ≡ elim (get j m) [ none ↦ none | some v ↦ if f v then some v else none ]
  unfolding get retain
  get-retain j f [] h = refl
  get-retain j f ((i, w) ∷ m) h = ground (
    arith,
    get-retain j f m h.1,
    λ (e : o.cmp j i ≡ eq). get-Below j m (All-imp (λ y p. o.cmp_congr j i y e ∙ p) (keys m) h.0),
  )

  pub contains-keys : (k : K) (m : BtreeMap K V) → contains k (keys m) ≡ contains_key k m
  unfolding contains get
  contains-keys k [] = refl
  contains-keys k ((j, w) ∷ m) = ground (arith, contains-keys k m)

  pub remove_head : (k : K) (v : V) (m : BtreeMap K V) → remove k ((k, v) ∷ m) ≡ m
  unfolding remove
  remove_head k v m = rw (o.cmp_refl, remove)

  pub remove_behind :
      (i k : K) (v : V) (m : BtreeMap K V) → i ≺ k → remove k ((i, v) ∷ m) ≡ (i, v) ∷ remove k m
  unfolding remove
  remove_behind i k v m h = ground (arith, o.cmp_flip i k)

  pub AllValues-insert {μ} :
      (P : V → Type μ) (k : K) (v : V) (m : BtreeMap K V)
      → P v
      → AllValues P m
      → AllValues P (insert k v m)
  unfolding insert
  AllValues-insert P k v [] p h = (p, tt)
  AllValues-insert P k v ((j, w) ∷ m) p h = ground (arith, AllValues-insert P k v m p)

  pub AllValues-remove {μ} :
      (P : V → Type μ) (k : K) (m : BtreeMap K V) → AllValues P m → AllValues P (remove k m)
  unfolding remove
  AllValues-remove P k [] h = tt
  AllValues-remove P k ((j, w) ∷ m) h = ground (arith, AllValues-remove P k m)

  -- What `get` finds, or the default.
  pub AllValues-get {μ} :
      (P : V → Type μ) (k : K) (d : V) (m : BtreeMap K V)
      → P d
      → AllValues P m
      → P (elim (get k m) [ none ↦ d | some v ↦ v ])
  unfolding get
  AllValues-get P k d [] p h = p
  AllValues-get P k d ((j, w) ∷ m) p h = ground (arith, AllValues-get P k d m p)

  -- Entries are changed to values with the property.
  pub AllValues-entry {μ} :
      (P : V → Type μ) (k : K) (d : V) (f : V → V) (m : BtreeMap K V)
      → P d
      → ((v : V) → P v → P (f v))
      → AllValues P m
      → AllValues P (entry_or_insert k d f m)
  AllValues-entry P k d f m p step h =
      AllValues-insert P k (f (elim (get k m) [ none ↦ d | some v ↦ v ])) m
        (step _ (AllValues-get P k d m p h)) h
