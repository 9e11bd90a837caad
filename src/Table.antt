-- ===== src/Table.antt =====
-- The hash map of the crate `ahash` (`AHashMap`), as a worker uses it. The crate is a parameter,
-- `Table`; `IsTable` says what a map promises. The order of iteration is open.
use contime.Prelude.{ℕ, ◌≡◌, Option, none, some, List, ◌==◌, if◌then◌else◌}

pub record Table {ℓ κ} (M : Type ℓ) (V : Type κ) : Type (ℓ ⊔ κ) where
  pub new : M
  pub get : ℕ → M → Option V
  pub insert : ℕ → V → M → M
  -- the keys in the order of iteration
  pub keys : M → List ℕ

pub record IsTable {ℓ κ} {M : Type ℓ} {V : Type κ} (H : Table M V) : Type (ℓ ⊔ κ) where
  pub get-new : (k : ℕ) → H.get k H.new ≡ none
  pub get-insert :
      (j k : ℕ) (v : V) (m : M) → H.get j (H.insert k v m) ≡ (if k == j then some v else H.get j m)
