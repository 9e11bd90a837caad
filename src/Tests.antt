-- ===== src/Tests.antt =====
-- The tests that src/apply.rs and src/history.rs carry, as computations that panic where an
-- assertion fails: the comparisons that they make, with the tests in the modules below.
pub mod Apply
pub mod Deps
pub mod History
use Prim.Native.Nat.Ordering.{eq}
use contime.Prelude.{ℕ, Bool, true, false, ◌&&◌, ◌==◌, Option, none, some, List, [], ◌∷◌}
use contime.Prelude.Int.{ℤ, compare_ℤ}
use contime.Key.{ContimeKey}
use contime.BTreeMap.{BTreeMap}
use contime.Fixtures.{TestEvent, positive, negative, TestSnapshot}

-- `assert!`
unfoldable pub assert : Bool → Option (Unit {0})
assert true = some tt
assert false = none

abbrev pub same_ℤ : ℤ → ℤ → Bool
same_ℤ a b = elim (compare_ℤ a b) [ eq ↦ true | _ ↦ false ]

abbrev pub same_list {ℓ} : {A : Type ℓ} → (A → A → Bool) → List A → List A → Bool
same_list same [] [] = true
same_list same [] (y ∷ ys) = false
same_list same (x ∷ xs) [] = false
same_list same (x ∷ xs) (y ∷ ys) = same x y && same_list same xs ys

-- `derive(PartialEq)` of `TestEvent`, `TestSnapshot` and `ContimeKey`
abbrev pub same_event : TestEvent → TestEvent → Bool
same_event (positive a b c d) (positive a' b' c' d') = a == a' && same_ℤ b b' && c == c' && d == d'
same_event (positive a b c d) (negative a' b' c' d') = false
same_event (negative a b c d) (positive a' b' c' d') = false
same_event (negative a b c d) (negative a' b' c' d') = a == a' && same_ℤ b b' && c == c' && d == d'

abbrev pub same_snapshot : TestSnapshot → TestSnapshot → Bool
same_snapshot a b =
    a.id == b.id && same_ℤ a.time b.time && same_list same_ℤ a.items b.items && same_ℤ a.sum b.sum

abbrev pub same_contime_key : ContimeKey → ContimeKey → Bool
same_contime_key a b = same_ℤ a.time b.time && a.id == b.id

-- `==` of two maps
abbrev pub same_map {ℓ} :
    {V : Type ℓ} → (V → V → Bool) → BTreeMap ContimeKey V → BTreeMap ContimeKey V → Bool
same_map same = same_list (λ x y. same_contime_key x.0 y.0 && same x.1 y.1)
