-- ===== src/BTreeMap/Sorted.antt =====
-- The order of the entries, which every operation of the map keeps, and reading a map by a key.
use contime.Prelude.{
  ◌≡◌, refl, ap, Bool, true, false, some, [], ◌∷◌, ◌++◌, All, All-imp, All-filter, All-append,
  All-append_left, All-append_right, filter, arith,
}
use contime.Ord.{Ord, ◌≺◌, gt_of_lt}
use contime.BTreeMap.{BTreeMap, get, contains_key, insert, remove, entries, excluded, unbounded}

module _ {ℓ κ μ} {K : Type ℓ} {V : Type κ} {W : Type μ} ⦃o : Ord K⦄ where
  -- the keys of one map lie before those of another
  abbrev pub Precedes : BTreeMap K V → BTreeMap K W → Type 0
  Precedes xs ys = All (λ x. All (λ y. x.0 ≺ y.0) ys) xs

module _ {ℓ κ} {K : Type ℓ} {V : Type κ} ⦃o : Ord K⦄ where
  -- every key of the map lies behind `k`, and before `k`
  abbrev pub KeysAfter : K → BTreeMap K V → Type 0
  KeysAfter k m = All (λ e. k ≺ e.0) m

  abbrev pub KeysBefore : K → BTreeMap K V → Type 0
  KeysBefore k m = All (λ e. e.0 ≺ k) m

  abbrev pub IsSorted : BTreeMap K V → Type 0
  IsSorted [] = Unit
  IsSorted (e ∷ m) = KeysAfter e.0 m × IsSorted m

  pub KeysAfter-trans : (a b : K) (m : BTreeMap K V) → a ≺ b → KeysAfter b m → KeysAfter a m
  KeysAfter-trans a b m h = All-imp (λ e g. o.lt_trans a b e.0 h g) m

  pub All-insert {μ} :
      (P : K × V → Type μ) (k : K) (v : V) (m : BTreeMap K V)
      → P (k, v)
      → All P m
      → All P (insert k v m)
  unfolding insert
  All-insert P k v [] p a = (p, tt)
  All-insert P k v ((j, w) ∷ m) p a = ground (arith, All-insert P k v m p)

  pub insert-IsSorted : (k : K) (v : V) (m : BTreeMap K V) → IsSorted m → IsSorted (insert k v m)
  unfolding insert
  insert-IsSorted k v [] s = (tt, tt)
  insert-IsSorted k v ((j, w) ∷ m) s = ground (
    arith,
    insert-IsSorted k v m s.1,
    KeysAfter-trans k j m,
    o.eq_of_cmp k j,
    o.cmp_flip k j,
    All-insert (λ e. j ≺ e.0) k v m,
  )

  pub filter-IsSorted : (p : K × V → Bool) (m : BTreeMap K V) → IsSorted m → IsSorted (filter p m)
  filter-IsSorted p [] s = tt
  filter-IsSorted p (e ∷ m) s =
      ground (arith, All-filter (λ x. e.0 ≺ x.0) p m s.0, filter-IsSorted p m s.1)

  pub IsSorted-append :
      (xs ys : BTreeMap K V) → IsSorted xs → IsSorted ys → Precedes xs ys → IsSorted (xs ++ ys)
  IsSorted-append [] ys s t c = t
  IsSorted-append (x ∷ xs) ys s t c =
      (All-append (λ e. x.0 ≺ e.0) xs ys s.0 c.0, IsSorted-append xs ys s.1 t c.1)

  pub IsSorted-append_left : (xs ys : BTreeMap K V) → IsSorted (xs ++ ys) → IsSorted xs
  IsSorted-append_left [] ys s = tt
  IsSorted-append_left (x ∷ xs) ys s =
      (All-append_left (λ e. x.0 ≺ e.0) xs ys s.0, IsSorted-append_left xs ys s.1)

  pub IsSorted-append_right : (xs ys : BTreeMap K V) → IsSorted (xs ++ ys) → IsSorted ys
  IsSorted-append_right [] ys s = s
  IsSorted-append_right (x ∷ xs) ys s = IsSorted-append_right xs ys s.1

  pub IsSorted-Precedes : (xs ys : BTreeMap K V) → IsSorted (xs ++ ys) → Precedes xs ys
  IsSorted-Precedes [] ys s = tt
  IsSorted-Precedes (x ∷ xs) ys s =
      (All-append_right (λ e. x.0 ≺ e.0) xs ys s.0, IsSorted-Precedes xs ys s.1)

  -- an entry with a key behind all others goes to the end
  pub insert_after :
      (k : K) (v : V) (m : BTreeMap K V) → KeysBefore k m → insert k v m ≡ m ++ (k, v) ∷ []
  unfolding insert
  insert_after k v [] b = refl
  insert_after k v ((j, w) ∷ m) b = rw (gt_of_lt j k b.0, insert) (rw (insert_after k v m b.1))

  pub contains_key-insert :
      (k : K) (v : V) (m : BTreeMap K V) → contains_key k (insert k v m) ≡ true
  unfolding contains_key insert
  contains_key-insert k v [] = rw (o.cmp_self, contains_key)
  contains_key-insert k v ((j, w) ∷ m) = ground (arith, o.cmp_self k, contains_key-insert k v m)

  pub contains_key-insert_mono :
      (j k : K) (v : V) (m : BTreeMap K V)
      → contains_key j m ≡ true
      → IsSorted m
      → contains_key j (insert k v m) ≡ true
  unfolding contains_key insert
  contains_key-insert_mono j k v [] h s = cc
  contains_key-insert_mono j k v ((i, w) ∷ m) h s = ground (
    arith,
    contains_key-insert_mono j k v m,
    o.eq_of_cmp k i,
    o.eq_of_cmp j i,
    o.cmp_flip k i,
    o.cmp_flip j i,
    o.lt_trans k i j,
    o.cmp_flip k j,
    o.cmp_flip j k,
  )

  -- a key that is held is not behind, or before, all keys
  pub not_contains_after : (k : K) (m : BTreeMap K V) → KeysAfter k m → contains_key k m ≡ false
  unfolding contains_key
  not_contains_after k [] a = refl
  not_contains_after k ((j, w) ∷ m) a = rw (a.0, contains_key)

  pub not_contains_before : (k : K) (m : BTreeMap K V) → KeysBefore k m → contains_key k m ≡ false
  unfolding contains_key
  not_contains_before k [] a = refl
  not_contains_before k ((j, w) ∷ m) a =
      rw (gt_of_lt j k a.0, contains_key) (not_contains_before k m a.1)

  -- a property of all members holds of the key that is read
  pub All-contains {μ} :
      (P : K → Type μ) (k : K) (m : BTreeMap K V)
      → All (λ e. P e.0) m
      → contains_key k m ≡ true
      → P k
  unfolding contains_key
  All-contains P k [] a h = cc
  All-contains P k ((j, w) ∷ m) a h = ground (arith, All-contains P k m a.1, o.eq_of_cmp k j)

  pub get-append :
      (k : K) (v : V) (xs ys : BTreeMap K V)
      → IsSorted (xs ++ (k, v) ∷ ys)
      → get k (xs ++ (k, v) ∷ ys) ≡ some v
  unfolding get
  get-append k v [] ys s = rw (o.cmp_self, get)
  get-append k v ((j, w) ∷ xs) ys s =
      let first = All-append_right (λ e. j ≺ e.0) xs ((k, v) ∷ ys) s.0 in
      rw (gt_of_lt j k first.0, get) (get-append k v xs ys s.1)

  pub remove-append :
      (k : K) (v : V) (xs ys : BTreeMap K V)
      → IsSorted (xs ++ (k, v) ∷ ys)
      → remove k (xs ++ (k, v) ∷ ys) ≡ xs ++ ys
  unfolding remove
  remove-append k v [] ys s = rw (o.cmp_self, remove)
  remove-append k v ((j, w) ∷ xs) ys s =
      let first = All-append_right (λ e. j ≺ e.0) xs ((k, v) ∷ ys) s.0 in
      rw (gt_of_lt j k first.0, remove) (ap (λ m. (j, w) ∷ m) (remove-append k v xs ys s.1))

  pub IsSorted-append_drop :
      (k : K) (v : V) (xs ys : BTreeMap K V) → IsSorted (xs ++ (k, v) ∷ ys) → IsSorted (xs ++ ys)
  IsSorted-append_drop k v [] ys s = s.1
  IsSorted-append_drop k v (x ∷ xs) ys s = (
    All-append (λ e. x.0 ≺ e.0) xs ys (All-append_left (λ e. x.0 ≺ e.0) xs ((k, v) ∷ ys) s.0)
        (All-append_right (λ e. x.0 ≺ e.0) xs ((k, v) ∷ ys) s.0).1,
    IsSorted-append_drop k v xs ys s.1,
  )

  -- a key that is not held, in a map with nothing behind it, lies behind all keys
  pub all_before :
      (k : K) (m : BTreeMap K V)
      → contains_key k m ≡ false
      → entries (excluded k) unbounded m ≡ []
      → KeysBefore k m
  unfolding contains_key
  all_before k [] n b = tt
  all_before k ((j, w) ∷ m) n b = ground (arith, all_before k m, o.cmp_flip k j)

  pub contains_key-append :
      (k : K) (v : V) (xs ys : BTreeMap K V)
      → IsSorted (xs ++ (k, v) ∷ ys)
      → contains_key k (xs ++ (k, v) ∷ ys) ≡ true
  unfolding contains_key
  contains_key-append k v [] ys s = rw (o.cmp_self, contains_key)
  contains_key-append k v ((j, w) ∷ xs) ys s =
      let first = All-append_right (λ e. j ≺ e.0) xs ((k, v) ∷ ys) s.0 in
      rw (gt_of_lt j k first.0, contains_key) (contains_key-append k v xs ys s.1)

  pub contains_key-append_left :
      (k : K) (xs ys : BTreeMap K V) → contains_key k xs ≡ true → contains_key k (xs ++ ys) ≡ true
  unfolding contains_key
  contains_key-append_left k [] ys h = cc
  contains_key-append_left k ((j, w) ∷ xs) ys h = ground (arith, contains_key-append_left k xs ys)

  pub insert-append :
      (k : K) (v : V) (xs ys : BTreeMap K V)
      → KeysBefore k xs
      → insert k v (xs ++ ys) ≡ xs ++ insert k v ys
  unfolding insert
  insert-append k v [] ys b = refl
  insert-append k v ((j, w) ∷ xs) ys b =
      rw (gt_of_lt j k b.0, insert) (ap (λ m. (j, w) ∷ m) (insert-append k v xs ys b.1))
