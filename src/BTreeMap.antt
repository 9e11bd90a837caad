-- ===== src/BTreeMap.antt =====
-- `std::collections::BTreeMap`, as the list of its entries in the order of their keys: the
-- operations that the program uses. The laws are in the modules below.
pub mod Sorted
pub mod Ranges
pub mod Totals
pub mod Same
use Prim.Native.Nat.Ordering.{lt, eq, gt}
use contime.Prelude.{
  ℕ, ◌≡◌, Bool, true, false, not, ◌&&◌, Option, none, some, List, [], ◌∷◌, filter, if◌then◌else◌,
}
use contime.Ord.{Ord, is_lt, is_le}

abbrev pub BTreeMap {ℓ κ} : Type ℓ → Type κ → Type (ℓ ⊔ κ)
BTreeMap K V = List (K × V)

-- `std::ops::Bound`
pub data Bound {ℓ} (K : Type ℓ) : Type ℓ where
  included : K → Bound K
  excluded : K → Bound K
  unbounded : Bound K

module _ {ℓ} {K : Type ℓ} ⦃o : Ord K⦄ where
  -- the key lies on the right side of a lower bound, and of an upper bound
  abbrev pub above : Bound K → K → Bool
  above (included a) k = is_le (o.cmp a k)
  above (excluded a) k = is_lt (o.cmp a k)
  above unbounded k = true

  abbrev pub below : Bound K → K → Bool
  below (included b) k = is_le (o.cmp k b)
  below (excluded b) k = is_lt (o.cmp k b)
  below unbounded k = true

  abbrev pub in_range : Bound K → Bound K → K → Bool
  in_range lo hi k = if above lo k then below hi k else false

  -- the bounds at which `range` panics: the start lies behind the end, or both exclude one key
  abbrev pub out_of_order : Bound K → Bound K → Bool
  out_of_order unbounded hi = false
  out_of_order (included a) (included b) = is_lt (o.cmp b a)
  out_of_order (included a) (excluded b) = is_lt (o.cmp b a)
  out_of_order (included a) unbounded = false
  out_of_order (excluded a) (included b) = is_lt (o.cmp b a)
  out_of_order (excluded a) (excluded b) = is_le (o.cmp b a)
  out_of_order (excluded a) unbounded = false

module _ {ℓ κ} {K : Type ℓ} {V : Type κ} ⦃o : Ord K⦄ where
  unfoldable pub get : K → BTreeMap K V → Option V
  get k [] = none
  get k ((j, w) ∷ m) = elim (o.cmp k j) [ lt ↦ none | eq ↦ some w | gt ↦ get k m ]

  unfoldable pub contains_key : K → BTreeMap K V → Bool
  contains_key k [] = false
  contains_key k ((j, w) ∷ m) = elim (o.cmp k j) [ lt ↦ false | eq ↦ true | gt ↦ contains_key k m ]

  unfoldable pub insert : K → V → BTreeMap K V → BTreeMap K V
  insert k v [] = (k, v) ∷ []
  insert k v ((j, w) ∷ m) = elim (o.cmp k j) [
    | lt ↦ (k, v) ∷ (j, w) ∷ m
    | eq ↦ (k, v) ∷ m
    | gt ↦ (j, w) ∷ insert k v m
  ]

  -- the map that `remove` leaves; what it returns is `get` before
  unfoldable pub remove : K → BTreeMap K V → BTreeMap K V
  remove k [] = []
  remove k ((j, w) ∷ m) = elim (o.cmp k j) [ lt ↦ (j, w) ∷ m | eq ↦ m | gt ↦ (j, w) ∷ remove k m ]

  -- the entries between two bounds, in the order of their keys
  abbrev pub entries : Bound K → Bound K → BTreeMap K V → BTreeMap K V
  entries lo hi m = filter (λ e. in_range lo hi e.0) m

  -- `range`, with the panic that the standard library documents, whatever the map holds
  unfoldable pub range : Bound K → Bound K → BTreeMap K V → Option (BTreeMap K V)
  range lo hi m = if out_of_order lo hi then none else some (entries lo hi m)

  -- `split_off`: what stays in the map, and what is returned
  abbrev pub split_off : K → BTreeMap K V → BTreeMap K V × BTreeMap K V
  split_off k m = (entries unbounded (excluded k) m, entries (included k) unbounded m)
