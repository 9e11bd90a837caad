-- ===== src/Prelude/Any.antt =====
-- A Boolean test that some member of a list passes.
use mathlib.Core.Path.{◌≡◌, refl}
use mathlib.Core.Bool.{Bool, true, false, ◌||◌}
use mathlib.Core.List.{List, [], ◌∷◌, ◌++◌}
use native.Mathlib.Omega.{arith}

module _ {ℓ} {A : Type ℓ} where
  abbrev pub any : (A → Bool) → List A → Bool
  any p [] = false
  any p (x ∷ xs) = p x || any p xs

  pub any-append : (p : A → Bool) (xs ys : List A) → any p (xs ++ ys) ≡ (any p xs || any p ys)
  any-append p [] ys = refl
  any-append p (x ∷ xs) ys = ground (arith, any-append p xs ys)

  -- where a test fails on the members that two others fail on
  pub any_none :
      (p q s : A → Bool)
      → ((x : A) → p x ≡ false → q x ≡ false → s x ≡ false)
      → (xs : List A) → any p xs ≡ false
      → any q xs ≡ false
      → any s xs ≡ false
  any_none p q s h [] e f = refl
  any_none p q s h (x ∷ xs) e f = ground (arith, h x, any_none p q s h xs, e, f)

  pub any_some :
      (p q : A → Bool)
      → ((x : A) → p x ≡ true → q x ≡ true)
      → (xs : List A) → any p xs ≡ true
      → any q xs ≡ true
  any_some p q h [] e = cc
  any_some p q h (x ∷ xs) e = ground (arith, h x, any_some p q h xs, e)
