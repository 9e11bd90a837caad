-- ===== src/Sizes.antt =====
-- Deltas of conservative sizes, as `i64` carries them: src/history.rs, lines 127 to 140.
use contime.Prelude.{ℕ, ◌+◌, ◌%◌, ◌^◌, ◌≡◌, [], ◌∷◌, arith}
use contime.Prelude.Int.{ℤ}
use contime.Prelude.Word.{to_u64, to_i64, sub_i64, to_u64-to_i64, to_u64-sub_i64, to_u64-lt}
use contime.BTreeMap.{BTreeMap}
use contime.BTreeMap.Totals.{total}

-- a change of a total from `before` to `after` shows as the change of a delta from `d` to `e`,
-- as far as 64 bits tell
abbrev pub Accounts : ℕ → ℤ → ℕ → ℤ → Type 0
Accounts before d after e = (before + to_u64 e) % 2 ^ 64 ≡ (after + to_u64 d) % 2 ^ 64

pub Accounts-trans :
    (a b c : ℕ) (d e f : ℤ) → Accounts a d b e → Accounts b e c f → Accounts a d c f
Accounts-trans a b c d e f h k = omega arith

module _ {ℓ κ} {K : Type ℓ} {V : Type κ} where
  -- `for (_key, value) in &map { bytes_delta -= value.conservative_size() as i64; }`
  unfoldable pub subtract_sizes : (V → ℕ) → BTreeMap K V → ℤ → ℤ
  subtract_sizes size [] bytes_delta = bytes_delta
  subtract_sizes size ((key, value) ∷ rest) bytes_delta =
      subtract_sizes size rest (sub_i64 bytes_delta (to_i64 (size value)))

  pub subtract_sizes-Accounts :
      (f : V → ℕ) (n : ℕ) (m : BTreeMap K V) (d : ℤ)
      → Accounts (n + total f m) d n (subtract_sizes f m d)
  unfolding subtract_sizes
  subtract_sizes-Accounts f n [] d = omega arith
  subtract_sizes-Accounts f n ((k, v) ∷ m) d =
      let e = sub_i64 d (to_i64 (f v)) in
      Accounts-trans (n + (f v + total f m)) (n + total f m) n d e (subtract_sizes f m e)
        (omega
          (arith, to_u64-sub_i64 d (to_i64 (f v)), to_u64-to_i64 (f v), to_u64-lt (to_i64 (f v))))
        (subtract_sizes-Accounts f n m e)
