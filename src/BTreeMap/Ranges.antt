-- ===== src/BTreeMap/Ranges.antt =====
-- Ranges of a sorted map: cutting a map at a key, and how a range changes under `insert`.
use contime.Prelude.{
  ◌≡◌, refl, sym, ap, ap₂, All-intro, ◌∙◌, Bool, true, false, not, ◌&&◌, some, [], ◌∷◌, ◌++◌,
  All-imp, All-append_right, All-filter, filter, filter-All, filter_none, filter-filter,
  filter_congr, last, All-append, All, subst, arith, Bool-cases, inl, inr,
}
use contime.Ord.{Ord, ◌≺◌, is_lt, is_le}
use contime.BTreeMap.{
  BTreeMap, Bound, included, excluded, unbounded, in_range, above, below, entries, insert,
  contains_key,
}
use contime.BTreeMap.Sorted.{
  IsSorted, IsSorted-Precedes, filter-IsSorted, KeysAfter-trans, not_contains_after,
}

module _ {ℓ} {K : Type ℓ} ⦃o : Ord K⦄ where
  -- a test that passes up to some place in the order of the keys
  abbrev pub IsLower : (K → Bool) → Type ℓ
  IsLower p = (a b : K) → a ≺ b → p b ≡ true → p a ≡ true

  pub upto-IsLower : (k : K) → IsLower (λ x. is_le (o.cmp x k))
  upto-IsLower k a b h e = ground (arith, o.lt_trans a b k h, o.eq_of_cmp b k)

  pub before-IsLower : (k : K) → IsLower (λ x. is_lt (o.cmp x k))
  before-IsLower k a b h e = ground (arith, o.lt_trans a b k h)

module _ {ℓ κ} {K : Type ℓ} {V : Type κ} ⦃o : Ord K⦄ where
  -- the entries up to a key, before it, behind it, and from it
  abbrev pub upto : K → BTreeMap K V → BTreeMap K V
  upto k = entries unbounded (included k)

  abbrev pub before : K → BTreeMap K V → BTreeMap K V
  before k = entries unbounded (excluded k)

  abbrev pub behind : K → BTreeMap K V → BTreeMap K V
  behind k = entries (excluded k) unbounded

  abbrev pub from : K → BTreeMap K V → BTreeMap K V
  from k = entries (included k) unbounded

  pub filter_cut :
      (p q : K → Bool) (m : BTreeMap K V)
      → IsLower p
      → ((k : K) → q k ≡ not (p k))
      → IsSorted m
      → filter (λ e. p e.0) m ++ filter (λ e. q e.0) m ≡ m
  filter_cut p q [] l n s = refl
  filter_cut p q (e ∷ m) l n s = elim (Bool-cases (p e.0)) [
    | inl passes ↦ rw (passes, n e.0, passes) (ap (λ r. e ∷ r) (filter_cut p q m l n s.1))
    | inr stops ↦
        rw (stops, n e.0, stops)
          (rw (filter_none (λ x. p x.0) m (All-imp (λ x h. ground (arith, l e.0 x.0 h)) m s.0)) (
            ap (λ r. e ∷ r)
              (filter-All (λ x. q x.0) m
                (All-imp (λ x h. ground (arith, l e.0 x.0 h, n x.0)) m s.0))))
  ]

  -- a sorted map, cut behind a key and in front of it
  pub upto-behind : (k : K) (m : BTreeMap K V) → IsSorted m → upto k m ++ behind k m ≡ m
  upto-behind k m s =
      filter_cut (λ x. is_le (o.cmp x k)) (in_range (excluded k) unbounded) m (upto-IsLower k)
        (λ x. ground (arith, o.cmp_flip x k)) s

  pub before-from : (k : K) (m : BTreeMap K V) → IsSorted m → before k m ++ from k m ≡ m
  before-from k m s =
      filter_cut (λ x. is_lt (o.cmp x k)) (in_range (included k) unbounded) m (before-IsLower k)
        (λ x. ground (arith, o.cmp_flip x k)) s

  -- the entry at `k` is the last one up to `k`
  pub upto_at :
      (k : K) (v : V) (xs ys : BTreeMap K V)
      → IsSorted (xs ++ (k, v) ∷ ys)
      → upto k (xs ++ (k, v) ∷ ys) ≡ xs ++ (k, v) ∷ []
  upto_at k v [] ys s = rw o.cmp_self (
      ap (λ r. (k, v) ∷ r)
        (filter_none _ ys (All-imp (λ e h. ground (arith, o.cmp_flip k e.0)) ys s.0)))
  upto_at k v (x ∷ xs) ys s =
      rw (All-append_right (λ e. x.0 ≺ e.0) xs ((k, v) ∷ ys) s.0).0
        (ap (λ r. x ∷ r) (upto_at k v xs ys s.1))

  -- inserting outside of a range leaves the range alone
  pub filter-insert :
      (p : K → Bool) (k : K) (v : V) (m : BTreeMap K V)
      → p k ≡ false
      → filter (λ e. p e.0) (insert k v m) ≡ filter (λ e. p e.0) m
  unfolding insert
  filter-insert p k v [] h = rw h
  filter-insert p k v ((j, w) ∷ m) h = ground (arith, filter-insert p k v m h, o.eq_of_cmp k j)

  -- the last entry of a sorted map is its end
  pub last_splits :
      (m : BTreeMap K V) (e : K × V) → last m ≡ some e → (xs : BTreeMap K V) × (m ≡ xs ++ e ∷ [])
  last_splits [] e h = cc
  last_splits (x ∷ []) e h = ([], ground arith)
  last_splits (x ∷ y ∷ m) e h =
      let (xs, q) = last_splits (y ∷ m) e (ground arith) in (x ∷ xs, ap (λ r. x ∷ r) q)

  pub narrow :
      (p q r : K → Bool) (m : BTreeMap K V)
      → ((k : K) → r k ≡ (q k && p k))
      → filter (λ e. r e.0) m ≡ filter (λ e. p e.0) (filter (λ e. q e.0) m)
  narrow p q r m h =
      filter_congr _ _ m (All-intro (λ e. r e.0 ≡ (q e.0 && p e.0)) m (λ e. h e.0))
      ∙ sym (filter-filter (λ e. p e.0) (λ e. q e.0) m)

  -- cutting a stretch of a range in two, at a key inside it
  pub upto-upto :
      (a b : K) (m : BTreeMap K V)
      → IsSorted m
      → a ≺ b
      → upto a m ++ entries (excluded a) (included b) m ≡ upto b m
  upto-upto a b m s h =
      ap₂ ◌++◌
        (narrow (in_range unbounded (included a)) (in_range unbounded (included b))
          (in_range unbounded (included a)) m
          (λ x. ground (arith, o.lt_trans x a b, o.eq_of_cmp x a)))
        (narrow (in_range (excluded a) unbounded) (in_range unbounded (included b))
          (in_range (excluded a) (included b)) m (λ x. ground arith))
      ∙ upto-behind a (upto b m) (filter-IsSorted _ m s)

  pub upto-before :
      (a b : K) (m : BTreeMap K V)
      → IsSorted m
      → a ≺ b
      → upto a m ++ entries (excluded a) (excluded b) m ≡ before b m
  upto-before a b m s h =
      ap₂ ◌++◌
        (narrow (in_range unbounded (included a)) (in_range unbounded (excluded b))
          (in_range unbounded (included a)) m
          (λ x. ground (arith, o.lt_trans x a b, o.eq_of_cmp x a)))
        (narrow (in_range (excluded a) unbounded) (in_range unbounded (excluded b))
          (in_range (excluded a) (excluded b)) m (λ x. ground arith))
      ∙ upto-behind a (before b m) (filter-IsSorted _ m s)

  -- a range cut in two behind a key that lies inside it
  pub entries-cut :
      (lo hi : Bound K) (k : K) (m : BTreeMap K V)
      → IsSorted m
      → ((x : K) → k ≺ x → above lo x ≡ true)
      → ((x : K) → is_le (o.cmp x k) ≡ true → below hi x ≡ true)
      → entries lo (included k) m ++ entries (excluded k) hi m ≡ entries lo hi m
  entries-cut lo hi k m s after inside =
      ap₂ ◌++◌
        (narrow (in_range unbounded (included k)) (in_range lo hi) (in_range lo (included k)) m
          (λ x. ground (arith, inside x)))
        (narrow (in_range (excluded k) unbounded) (in_range lo hi) (in_range (excluded k) hi) m
          (λ x. ground (arith, after x)))
      ∙ upto-behind k (entries lo hi m) (filter-IsSorted _ m s)

  -- the same, cut in front of the key, where the second part starts
  pub entries-cut_before :
      (lo hi : Bound K) (k : K) (m : BTreeMap K V)
      → IsSorted m
      → ((x : K) → is_le (o.cmp k x) ≡ true → above lo x ≡ true)
      → ((x : K) → x ≺ k → below hi x ≡ true)
      → entries lo (excluded k) m ++ entries unbounded hi (from k m) ≡ entries lo hi m
  entries-cut_before lo hi k m s after inside =
      ap₂ ◌++◌
        (narrow (in_range unbounded (excluded k)) (in_range lo hi) (in_range lo (excluded k)) m
          (λ x. ground (arith, inside x)))
        (sym (
            narrow (in_range unbounded hi) (in_range (included k) unbounded)
              (in_range (included k) hi) m (λ x. ground arith))
          ∙ narrow (in_range (included k) unbounded) (in_range lo hi) (in_range (included k) hi) m
              (λ x. ground (arith, after x)))
      ∙ before-from k (entries lo hi m) (filter-IsSorted _ m s)

  -- no key of a sorted map lies behind the last one
  pub last-bounds :
      (m : BTreeMap K V) (k : K) (v : V)
      → IsSorted m
      → last m ≡ some (k, v)
      → All (λ x. is_le (o.cmp x.0 k) ≡ true) m
  last-bounds m k v s e =
      let (xs, q) = last_splits m (k, v) e in
      subst (λ r. All (λ x. is_le (o.cmp x.0 k) ≡ true) r) (sym q)
        (All-append (λ x. is_le (o.cmp x.0 k) ≡ true) xs ((k, v) ∷ [])
          (All-imp (λ x h. rw h.0) xs (IsSorted-Precedes xs ((k, v) ∷ []) (rw (← q) s)))
          (rw o.cmp_self, tt))

  -- a range up to a bound, cut in front of a key that the bound does not cut off
  pub before-entries :
      (k : K) (hi : Bound K) (m : BTreeMap K V)
      → IsSorted m
      → ((x : K) → x ≺ k → below hi x ≡ true)
      → before k m ++ entries unbounded hi (from k m) ≡ entries unbounded hi m
  before-entries k hi m s inside =
      ap₂ ◌++◌
        (narrow (in_range unbounded (excluded k)) (in_range unbounded hi)
          (in_range unbounded (excluded k)) m (λ x. ground (arith, inside x)))
        (sym (
            narrow (in_range unbounded hi) (in_range (included k) unbounded)
              (in_range (included k) hi) m (λ x. ground arith))
          ∙ narrow (in_range (included k) unbounded) (in_range unbounded hi)
              (in_range (included k) hi) m (λ x. ground arith))
      ∙ before-from k (entries unbounded hi m) (filter-IsSorted _ m s)

  pub contains_key-filter :
      (p : K → Bool) (k : K) (m : BTreeMap K V)
      → p k ≡ true
      → contains_key k m ≡ true
      → contains_key k (filter (λ e. p e.0) m) ≡ true
  unfolding contains_key
  contains_key-filter p k [] h c = cc
  contains_key-filter p k ((j, w) ∷ m) h c =
      ground (arith, contains_key-filter p k m h, o.eq_of_cmp k j)

  pub not_contains_filter :
      (p : K → Bool) (k : K) (m : BTreeMap K V)
      → IsSorted m
      → contains_key k m ≡ false
      → contains_key k (filter (λ e. p e.0) m) ≡ false
  unfolding contains_key
  not_contains_filter p k [] s c = refl
  not_contains_filter p k ((j, w) ∷ m) s c = ground (
    arith,
    not_contains_filter p k m s.1,
    KeysAfter-trans k j m,
    All-filter (λ e. k ≺ e.0) (λ e. p e.0) m,
    not_contains_after k (filter (λ e. p e.0) m),
  )

  pub contains_of_filter :
      (p : K → Bool) (k : K) (m : BTreeMap K V)
      → IsSorted m
      → contains_key k (filter (λ e. p e.0) m) ≡ true
      → contains_key k m ≡ true
  contains_of_filter p k m s h = elim (Bool-cases (contains_key k m)) [
    | inl held ↦ held
    | inr missing ↦ cc (h, not_contains_filter p k m s missing)
  ]
