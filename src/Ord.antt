-- ===== src/Ord.antt =====
-- The bound `K: Ord` of the standard library's ordered containers, with the laws that the trait
-- documents, and the comparisons that a range of keys is cut out with.
use Prim.Native.Nat.{Ordering}
use Prim.Native.Nat.Ordering.{lt, eq, gt}
use contime.Prelude.{◌≡◌, ◌⊎◌, Bool, true, false, arith}

abbrev pub flip : Ordering → Ordering
flip lt = gt
flip eq = eq
flip gt = lt

pub record Ord {ℓ} (K : Type ℓ) : Type ℓ where
  pub cmp : K → K → Ordering
  pub cmp_self : (a : K) → cmp a a ≡ eq
  pub eq_of_cmp : (a b : K) → cmp a b ≡ eq → a ≡ b
  pub cmp_flip : (a b : K) → cmp b a ≡ flip (cmp a b)
  pub lt_trans : (a b c : K) → cmp a b ≡ lt → cmp b c ≡ lt → cmp a c ≡ lt

abbrev pub is_lt : Ordering → Bool
is_lt lt = true
is_lt eq = false
is_lt gt = false

abbrev pub is_le : Ordering → Bool
is_le lt = true
is_le eq = true
is_le gt = false

module _ {ℓ} {K : Type ℓ} ⦃o : Ord K⦄ where
  infix 50 ◌≺◌
  abbrev pub ◌≺◌ : K → K → Type 0
  a ≺ b = o.cmp a b ≡ lt

  pub gt_of_lt : (a b : K) → a ≺ b → o.cmp b a ≡ gt
  gt_of_lt a b h = ground (arith, o.cmp_flip a b)

  pub not-lt_self : (a : K) → a ≺ a → ⊥
  not-lt_self a h = ground (arith, o.cmp_self a)

  -- the three ways that two keys compare
  pub trichotomy : (a b : K) → (a ≺ b) ⊎ ((a ≡ b) ⊎ (b ≺ a))
  trichotomy a b = ground (arith, o.cmp_flip a b, o.eq_of_cmp a b)
