-- ===== src/Key.antt =====
-- src/key.rs: `ContimeKey`, whose derived order compares the time first and then the id.
use Prim.Native.Nat.{compare, Ordering}
use Prim.Native.Nat.Ordering.{lt, eq, gt}
use contime.Prelude.{ℕ, ◌≡◌, arith}
use contime.Prelude.Int.{ℤ, pos, negsuc, compare_ℤ}
use contime.Ord.{Ord, flip}
use contime.Traits.{Event, Snapshot}

pub record ContimeKey : Type 0 where
  pub time : ℤ
  pub id : ℕ

abbrev then : Ordering → Ordering → Ordering
then lt second = lt
then eq second = second
then gt second = gt

-- `derive(PartialOrd, Ord)`: lexicographic in the order of the fields
unfoldable pub compare_key : ContimeKey → ContimeKey → Ordering
compare_key a b = then (compare_ℤ a.time b.time) (compare a.id b.id)

compare_ℤ_self : (a : ℤ) → compare_ℤ a a ≡ eq
compare_ℤ_self (pos a) = ground arith
compare_ℤ_self (negsuc a) = ground arith

eq_of_compare_ℤ : (a b : ℤ) → compare_ℤ a b ≡ eq → a ≡ b
eq_of_compare_ℤ a b h = ground arith

compare_ℤ-flip : (a b : ℤ) → compare_ℤ b a ≡ flip (compare_ℤ a b)
compare_ℤ-flip a b = ground arith

compare_ℤ_trans : (a b c : ℤ) → compare_ℤ a b ≡ lt → compare_ℤ b c ≡ lt → compare_ℤ a c ≡ lt
compare_ℤ_trans a b c h k = ground arith

pub compare_key_self : (a : ContimeKey) → compare_key a a ≡ eq
unfolding compare_key
compare_key_self a = ground (arith, compare_ℤ_self a.time)

pub eq_of_compare_key : (a b : ContimeKey) → compare_key a b ≡ eq → a ≡ b
unfolding compare_key
eq_of_compare_key a b h = ground (arith, eq_of_compare_ℤ a.time b.time)

pub compare_key-flip : (a b : ContimeKey) → compare_key b a ≡ flip (compare_key a b)
unfolding compare_key
compare_key-flip a b = ground (arith, compare_ℤ-flip a.time b.time)

pub compare_key_trans :
    (a b c : ContimeKey) → compare_key a b ≡ lt → compare_key b c ≡ lt → compare_key a c ≡ lt
unfolding compare_key
compare_key_trans a b c h k = ground (
  arith,
  eq_of_compare_ℤ a.time b.time,
  eq_of_compare_ℤ b.time c.time,
  compare_ℤ_trans a.time b.time c.time,
)

instance unfoldable pub key_ord : Ord ContimeKey
key_ord = record {
  cmp = compare_key;
  cmp_self = compare_key_self;
  eq_of_cmp = eq_of_compare_key;
  cmp_flip = compare_key-flip;
  lt_trans = compare_key_trans;
}

abbrev pub from_event {κ} : {E : Type κ} → Event E → E → ContimeKey
from_event ev event = record { time = ev.time event; id = ev.id event }

abbrev pub from_snapshot {ℓ κ} : {S : Type ℓ} {E : Type κ} → Snapshot S E → S → ContimeKey
from_snapshot sn snapshot = record { time = sn.time snapshot; id = sn.id snapshot }
