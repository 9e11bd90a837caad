-- ===== src/Worker/Usage.antt =====
-- The shared counter of bytes.
use contime.Prelude.{ℕ, ◌+◌, ◌^◌, ◌≤◌, ◌<◌, ◌≡◌, refl, List, [], ◌∷◌, arith}
use contime.Prelude.Int.{ℤ, pos, negsuc, pos_part, neg_part}
use contime.Prelude.Word.{saturating_add, saturating_sub}
use contime.Sizes.{Accounts}
use contime.Worker.{updated_usage, fetch_saturating_add_signed}

-- an i64
pub record IsI64 (d : ℤ) : Type 0 where
  pub below : pos_part d < 2 ^ 63
  pub above : neg_part d ≤ 2 ^ 63

-- A delta that is an i64 keeps the counter a u64.
pub updated_usage-lt :
    (d : ℤ) (usage : ℕ) → IsI64 d → usage < 2 ^ 64 → updated_usage d usage < 2 ^ 64
unfolding updated_usage saturating_add saturating_sub
updated_usage-lt (pos n) usage r h = ground arith
updated_usage-lt (negsuc n) usage r h = ground arith

exact :
    (d : ℤ) (usage : ℕ)
    → IsI64 d
    → neg_part d ≤ usage
    → usage + pos_part d < 2 ^ 64
    → updated_usage d usage + neg_part d ≡ usage + pos_part d
unfolding updated_usage saturating_add saturating_sub
exact (pos n) usage r h k = ground arith
exact (negsuc n) usage r h k = ground arith

parts :
    (d : ℤ) (before after : ℕ)
    → IsI64 d
    → before < 2 ^ 63
    → after < 2 ^ 63
    → Accounts before (pos 0) after d
    → before + pos_part d ≡ after + neg_part d
parts (pos n) before after r b a h = let p = r.below in omega arith
parts (negsuc n) before after r b a h = let p = r.above in omega arith

-- A delta that is an i64 and accounts for a change from `before` to `after`, both below 2^63,
-- takes a counter of `others + before` to `others + after`, if `others`, `before` and `after` add up
-- to less than 2^64.
pub usage_tracks :
    (d : ℤ) (others before after : ℕ)
    → IsI64 d
    → before < 2 ^ 63
    → after < 2 ^ 63
    → others + before + after < 2 ^ 64
    → Accounts before (pos 0) after d
    → updated_usage d (others + before) ≡ others + after
usage_tracks (pos n) others before after r b a room h =
    let p = parts (pos n) before after r b a h in
    omega (arith, exact (pos n) (others + before) r (omega arith) (omega arith))
usage_tracks (negsuc n) others before after r b a room h =
    let p = parts (negsuc n) before after r b a h in
    omega (arith, exact (negsuc n) (others + before) r (omega arith) (omega arith))

-- the value that the round that succeeds has loaded
abbrev pub loaded : List ℕ → ℕ → ℕ
loaded [] current = current
loaded (other ∷ failed) current = loaded failed other

-- However many exchanges fail, the delta is applied once, to the value that was there last.
pub fetch_applies_once :
    (failed : List ℕ) (d : ℤ) (current : ℕ)
    → fetch_saturating_add_signed failed d current ≡ updated_usage d (loaded failed current)
unfolding fetch_saturating_add_signed
fetch_applies_once [] d current = refl
fetch_applies_once (other ∷ failed) d current = fetch_applies_once failed d other
