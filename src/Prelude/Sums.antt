-- ===== src/Prelude/Sums.antt =====
-- The sum of a measure over the members of a list.
use Prim.Native.Nat.{ℕ, zero, suc, ◌+◌}
use mathlib.Core.Path.{◌≡◌, refl, sym}
use mathlib.Core.Option.{some}
use mathlib.Core.List.{List, [], ◌∷◌}
use native.Mathlib.Omega.{arith}
use contime.Prelude.Lists.{get_elem?, set}
use contime.Prelude.Indexed.{some_injective}

module _ {ℓ} {A : Type ℓ} where
  abbrev pub sum_of : (A → ℕ) → List A → ℕ
  sum_of f [] = 0
  sum_of f (x ∷ xs) = f x + sum_of f xs

  pub sum_of-set :
      (f : A → ℕ) (xs : List A) (i : ℕ) (x v : A)
      → get_elem? xs i ≡ some x
      → sum_of f (set xs i v) + f x ≡ sum_of f xs + f v
  sum_of-set f [] i x v e = cc
  sum_of-set f (y ∷ xs) zero x v e = rw (some_injective y x e) (omega arith)
  sum_of-set f (y ∷ xs) (suc i) x v e = omega (arith, sum_of-set f xs i x v e)

  -- a sum that is not 0 has a member that is not 0
  pub sum_of_positive :
      (f : A → ℕ) (xs : List A) (m : ℕ)
      → sum_of f xs ≡ suc m
      → (i : ℕ) × (x : A) × (k : ℕ) × (get_elem? xs i ≡ some x) × (f x ≡ suc k)
  sum_of_positive f [] m e = absurd (omega (arith, e))
  sum_of_positive f (x ∷ xs) m e = by_head (f x) refl (sum_of_positive f xs m)
    where
      by_head :
          (k : ℕ)
          → f x ≡ k
          → (sum_of f xs ≡ suc m
              → (i : ℕ) × (y : A) × (j : ℕ) × (get_elem? xs i ≡ some y) × (f y ≡ suc j))
          → (i : ℕ) × (y : A) × (j : ℕ) × (get_elem? (x ∷ xs) i ≡ some y) × (f y ≡ suc j)
      by_head zero q again =
          let (i, y, j, at_i, pos) = again (omega (arith, e, q)) in (suc i, y, j, at_i, pos)
      by_head (suc k) q again = (0, x, k, refl, q)

  pub sum_of_zero :
      (f : A → ℕ) (xs : List A)
      → sum_of f xs ≡ 0
      → (i : ℕ) (x : A) → get_elem? xs i ≡ some x
      → f x ≡ 0
  sum_of_zero f [] e i x g = cc
  sum_of_zero f (y ∷ xs) e zero x g = rw (sym (some_injective y x g)) (omega (arith, e))
  sum_of_zero f (y ∷ xs) e (suc i) x g = sum_of_zero f xs (omega (arith, e)) i x g
