-- ===== src/BTreeMap/Same.antt =====
-- A sorted map is determined by the keys that it holds and what it holds at each.
use Prim.Native.Nat.Ordering.{eq}
use contime.Prelude.{
  ◌≡◌, refl, sym, ap₂, ◌∙◌, Bool, true, false, ◌||◌, [], ◌∷◌, All, All-imp, arith, inl, inr,
}
use contime.Ord.{Ord, ◌≺◌, gt_of_lt, trichotomy}
use contime.BTreeMap.{BTreeMap, contains_key, insert}
use contime.BTreeMap.Sorted.{IsSorted, KeysAfter-trans, not_contains_after}

module _ {ℓ} {K : Type ℓ} ⦃o : Ord K⦄ where
  abbrev pub same_key : K → K → Bool
  same_key j k = elim (o.cmp j k) [ eq ↦ true | _ ↦ false ]

module _ {ℓ κ} {K : Type ℓ} {V : Type κ} ⦃o : Ord K⦄ where
  pub contains_key-insert-eq :
      (j k : K) (v : V) (m : BTreeMap K V)
      → contains_key j (insert k v m) ≡ (same_key j k || contains_key j m)
  unfolding contains_key insert
  contains_key-insert-eq j k v [] = ground arith
  contains_key-insert-eq j k v ((i, w) ∷ m) = ground (
    arith,
    contains_key-insert-eq j k v m,
    o.lt_trans j k i,
    o.lt_trans j i k,
    o.eq_of_cmp j k,
    o.eq_of_cmp k i,
    o.eq_of_cmp j i,
    o.cmp_flip k i,
    o.cmp_flip i k,
    o.cmp_self k,
  )

  contains_key_head : (x : K × V) (m : BTreeMap K V) → contains_key x.0 (x ∷ m) ≡ true
  unfolding contains_key
  contains_key_head x m = rw (o.cmp_self, contains_key)

  contains_key_tail :
      (k : K) (x : K × V) (m : BTreeMap K V) → x.0 ≺ k → contains_key k (x ∷ m) ≡ contains_key k m
  unfolding contains_key
  contains_key_tail k x m h = rw (gt_of_lt x.0 k h, contains_key)

  not_contains_cons :
      (k : K) (x : K × V) (m : BTreeMap K V)
      → IsSorted (x ∷ m)
      → k ≺ x.0
      → contains_key k (x ∷ m) ≡ false
  not_contains_cons k x m s h = not_contains_after k (x ∷ m) (h, KeysAfter-trans k x.0 m h s.0)

  -- sorted maps with one first key hold the same keys behind it
  tails_agree :
      (x y : K × V) (m n : BTreeMap K V)
      → IsSorted (x ∷ m)
      → IsSorted (y ∷ n)
      → x.0 ≡ y.0
      → ((k : K) → contains_key k (x ∷ m) ≡ contains_key k (y ∷ n))
      → (k : K) → contains_key k m ≡ contains_key k n
  tails_agree x y m n s t e h k = elim (trichotomy k x.0) [
    | inl before ↦
        not_contains_after k m (KeysAfter-trans k x.0 m before s.0)
        ∙ sym (not_contains_after k n (KeysAfter-trans k y.0 n (rw (← e) before) t.0))
    | inr (inl same) ↦
        rw same (not_contains_after x.0 m s.0 ∙ sym (rw e (not_contains_after y.0 n t.0)))
    | inr (inr behind) ↦
        sym (contains_key_tail k x m behind) ∙ h k ∙ contains_key_tail k y n (rw (← e) behind)
  ]

  -- maps that hold the same keys, and at one key one value
  pub sorted_ext :
      (m n : BTreeMap K V)
      → IsSorted m
      → IsSorted n
      → ((k : K) → contains_key k m ≡ contains_key k n)
      → All (λ x. All (λ y. x.0 ≡ y.0 → x.1 ≡ y.1) n) m
      → m ≡ n
  sorted_ext [] [] s t h v = refl
  sorted_ext [] (y ∷ n) s t h v = cc (h y.0, contains_key_head y n, none_held y.0)
    where
      none_held : (k : K) → contains_key {V = V} k [] ≡ false
      none_held k = not_contains_after k [] tt
  sorted_ext (x ∷ m) [] s t h v = cc (h x.0, contains_key_head x m, none_held x.0)
    where
      none_held : (k : K) → contains_key {V = V} k [] ≡ false
      none_held k = not_contains_after k [] tt
  sorted_ext (x ∷ m) (y ∷ n) s t h v = elim (trichotomy x.0 y.0) [
    | inl before ↦ cc (h x.0, contains_key_head x m, not_contains_cons x.0 y n t before)
    | inr (inl same) ↦
        ap₂ (λ a r. a ∷ r) (ap₂ (λ a b. (a, b)) same (v.0.0 same))
          (sorted_ext m n s.1 t.1 (tails_agree x y m n s t same h) (All-imp (λ z q. q.1) m v.1))
    | inr (inr behind) ↦ cc (h y.0, contains_key_head y n, not_contains_cons y.0 x m s behind)
  ]
