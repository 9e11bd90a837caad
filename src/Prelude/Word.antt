-- ===== src/Prelude/Word.antt =====
-- `i64` and `u64` as the release build computes with them: the casts keep the bit pattern, and
-- sums and differences wrap around. An `i64` is kept as the integer that it stands for.
use Prim.Native.Nat.{ℕ, ◌+◌, ◌-◌, ◌%◌, ◌^◌, ◌<◌}
use mathlib.Core.Path.{◌≡◌}
use native.Mathlib.Omega.{arith}
use contime.Prelude.Tests.{ltb, if◌then◌else◌}
use contime.Prelude.Int.{ℤ, pos, negsuc}

-- `x as u64` for an i64 `x`
abbrev pub to_u64 : ℤ → ℕ
to_u64 (pos n) = n % 2 ^ 64
to_u64 (negsuc n) = 2 ^ 64 - 1 - n % 2 ^ 64

-- `n as i64` for a u64 `n`
unfoldable pub to_i64 : ℕ → ℤ
to_i64 n = if ltb (n % 2 ^ 64) (2 ^ 63) then pos (n % 2 ^ 64) else negsuc (2 ^ 64 - 1 - n % 2 ^ 64)

unfoldable pub add_i64 : ℤ → ℤ → ℤ
add_i64 a b = to_i64 (to_u64 a + to_u64 b)

unfoldable pub sub_i64 : ℤ → ℤ → ℤ
sub_i64 a b = to_i64 (to_u64 a + (2 ^ 64 - to_u64 b))

-- `u64::saturating_add` and `u64::saturating_sub`
unfoldable pub saturating_add : ℕ → ℕ → ℕ
saturating_add a b = if ltb (a + b) (2 ^ 64) then a + b else 2 ^ 64 - 1

unfoldable pub saturating_sub : ℕ → ℕ → ℕ
saturating_sub a b = a - b

pub to_u64-to_i64 : (n : ℕ) → to_u64 (to_i64 n) ≡ n % 2 ^ 64
unfolding to_i64
to_u64-to_i64 n = ground arith

pub to_u64-add_i64 : (a b : ℤ) → to_u64 (add_i64 a b) ≡ (to_u64 a + to_u64 b) % 2 ^ 64
unfolding add_i64
to_u64-add_i64 a b = to_u64-to_i64 (to_u64 a + to_u64 b)

pub to_u64-sub_i64 : (a b : ℤ) → to_u64 (sub_i64 a b) ≡ (to_u64 a + (2 ^ 64 - to_u64 b)) % 2 ^ 64
unfolding sub_i64
to_u64-sub_i64 a b = to_u64-to_i64 (to_u64 a + (2 ^ 64 - to_u64 b))

pub to_u64-lt : (a : ℤ) → to_u64 a < 2 ^ 64
to_u64-lt (pos n) = omega arith
to_u64-lt (negsuc n) = omega arith
