-- ===== src/BTreeMap/Totals.antt =====
-- The sum of a number over the values of a map.
use contime.Prelude.{ℕ, ◌+◌, ◌≡◌, false, [], ◌∷◌, ◌++◌, arith}
use contime.Ord.{Ord}
use contime.BTreeMap.{BTreeMap, contains_key, insert}

abbrev pub total {ℓ κ} : {K : Type ℓ} {V : Type κ} → (V → ℕ) → BTreeMap K V → ℕ
total f [] = 0
total f ((k, v) ∷ m) = f v + total f m

module _ {ℓ κ} {K : Type ℓ} {V : Type κ} where
  pub total-append :
      (f : V → ℕ) (xs ys : BTreeMap K V) → total f (xs ++ ys) ≡ total f xs + total f ys
  total-append f [] ys = omega arith
  total-append f ((k, v) ∷ xs) ys = omega (arith, total-append f xs ys)

module _ {ℓ κ} {K : Type ℓ} {V : Type κ} ⦃o : Ord K⦄ where
  pub total-insert :
      (f : V → ℕ) (k : K) (v : V) (m : BTreeMap K V)
      → contains_key k m ≡ false
      → total f (insert k v m) ≡ f v + total f m
  unfolding insert contains_key
  total-insert f k v [] h = omega arith
  total-insert f k v ((j, w) ∷ m) h = ground (arith, total-insert f k v m)
