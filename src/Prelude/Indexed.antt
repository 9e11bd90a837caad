-- ===== src/Prelude/Indexed.antt =====
-- A property of all members of a list and of their places.
use Prim.Native.Nat.{ℕ, zero, suc, ◌<◌}
use mathlib.Core.Path.{◌≡◌, refl, ap}
use mathlib.Core.Logic.{◌≢◌}
use mathlib.Core.Option.{some}
use mathlib.Core.List.{List, [], ◌∷◌}
use native.Mathlib.Omega.{arith}
use contime.Prelude.Lists.{length, get_elem?, set}

pub some_injective {ℓ} : {A : Type ℓ} (x y : A) → some x ≡ some y → x ≡ y
some_injective x y e = cc

module _ {ℓ} {A : Type ℓ} where
  abbrev pub replicate : ℕ → A → List A
  replicate zero x = []
  replicate (suc n) x = x ∷ replicate n x

  pub length-replicate : (n : ℕ) (x : A) → length (replicate n x) ≡ n
  length-replicate zero x = refl
  length-replicate (suc n) x = ap suc (length-replicate n x)

  pub length-set : (xs : List A) (i : ℕ) (x : A) → length (set xs i x) ≡ length xs
  length-set [] i x = refl
  length-set (y ∷ xs) zero x = refl
  length-set (y ∷ xs) (suc i) x = ap suc (length-set xs i x)

  pub get_elem?-lt : (xs : List A) (i : ℕ) → i < length xs → (x : A) × (get_elem? xs i ≡ some x)
  get_elem?-lt [] i h = absurd (omega arith)
  get_elem?-lt (y ∷ xs) zero h = (y, refl)
  get_elem?-lt (y ∷ xs) (suc i) h = get_elem?-lt xs i (omega arith)

  pub lt-get_elem? : (xs : List A) (i : ℕ) (x : A) → get_elem? xs i ≡ some x → i < length xs
  lt-get_elem? [] i x e = cc
  lt-get_elem? (y ∷ xs) zero x e = omega arith
  lt-get_elem? (y ∷ xs) (suc i) x e = omega (arith, lt-get_elem? xs i x e)

  pub get_elem?-set_self :
      (xs : List A) (i : ℕ) (x v : A) → get_elem? xs i ≡ some x → get_elem? (set xs i v) i ≡ some v
  get_elem?-set_self [] i x v e = cc
  get_elem?-set_self (y ∷ xs) zero x v e = refl
  get_elem?-set_self (y ∷ xs) (suc i) x v e = get_elem?-set_self xs i x v e

  pub get_elem?-set_other :
      (xs : List A) (i j : ℕ) (v : A) → i ≢ j → get_elem? (set xs i v) j ≡ get_elem? xs j
  get_elem?-set_other [] i j v h = refl
  get_elem?-set_other (y ∷ xs) zero zero v h = absurd (h refl)
  get_elem?-set_other (y ∷ xs) zero (suc j) v h = refl
  get_elem?-set_other (y ∷ xs) (suc i) zero v h = refl
  get_elem?-set_other (y ∷ xs) (suc i) (suc j) v h =
      get_elem?-set_other xs i j v (λ e. h (ap suc e))

  pub set_comm :
      (xs : List A) (i j : ℕ) (u v : A) → i ≢ j → set (set xs i u) j v ≡ set (set xs j v) i u
  set_comm [] i j u v h = refl
  set_comm (y ∷ xs) zero zero u v h = absurd (h refl)
  set_comm (y ∷ xs) zero (suc j) u v h = refl
  set_comm (y ∷ xs) (suc i) zero u v h = refl
  set_comm (y ∷ xs) (suc i) (suc j) u v h =
      ap (λ l. y ∷ l) (set_comm xs i j u v (λ e. h (ap suc e)))

  abbrev pub AllAt {κ} : (ℕ → A → Type κ) → List A → Type (ℓ ⊔ κ)
  AllAt P xs = (i : ℕ) (x : A) → get_elem? xs i ≡ some x → P i x

  pub AllAt-set {κ} :
      (P : ℕ → A → Type κ) (xs : List A) (i : ℕ) (v : A) → AllAt P xs → P i v → AllAt P (set xs i v)
  AllAt-set P [] i v a p j x e = cc
  AllAt-set P (y ∷ xs) zero v a p zero x e = rw (some_injective v x e) at p
  AllAt-set P (y ∷ xs) zero v a p (suc j) x e = a (suc j) x e
  AllAt-set P (y ∷ xs) (suc i) v a p zero x e = a zero x e
  AllAt-set P (y ∷ xs) (suc i) v a p (suc j) x e =
      AllAt-set (λ k. P (suc k)) xs i v (λ k. a (suc k)) p j x e

  pub AllAt-replicate {κ} :
      (P : ℕ → A → Type κ) (n : ℕ) (v : A) → ((i : ℕ) → P i v) → AllAt P (replicate n v)
  AllAt-replicate P zero v p i x e = cc
  AllAt-replicate P (suc n) v p zero x e = rw (some_injective v x e) at (p 0)
  AllAt-replicate P (suc n) v p (suc i) x e =
      AllAt-replicate (λ k. P (suc k)) n v (λ k. p (suc k)) i x e
