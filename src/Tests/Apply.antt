-- ===== src/Tests/Apply.antt =====
-- The tests of src/apply.rs.
use contime.Prelude.{ℕ, suc, Option, none, some, List, [], ◌∷◌, ◌>>=◌}
use contime.Prelude.Int.{ℤ, pos, negsuc}
use contime.Key.{ContimeKey, key_ord, from_event}
use contime.BTreeMap.{BTreeMap, insert}
use contime.Apply.{apply_event_in_place}
use contime.Fixtures.{TestEvent, positive, negative, TestSnapshot, test_snapshot, to_unsigned}
use contime.Tests.{assert, same_event, same_snapshot, same_map}

abbrev pub checkpoint_interval : ℕ
checkpoint_interval = 2

-- `time.try_into().unwrap()` for a u128
abbrev pub as_id : ℤ → Option ℕ
as_id (pos n) = some n
as_id (negsuc n) = none

unfoldable pub gen_event : ℤ → ℤ → Option TestEvent
gen_event time (pos value) = do id ← as_id time; some (positive 0 time id value)
gen_event time (negsuc n) = do id ← as_id time; some (negative 0 time id (suc n))

abbrev pub base_snapshot : TestSnapshot
base_snapshot = record { id = 0; time = pos 0; items = []; sum = pos 0 }

-- the loop of `build_events`
unfoldable pub add_events :
    List (ℤ × ℤ) → BTreeMap ContimeKey TestEvent → Option (BTreeMap ContimeKey TestEvent)
add_events [] map = some map
add_events ((time, value) ∷ raw) map = do
  event ← gen_event time value
  add_events raw (insert (from_event test_snapshot.event event) event map)

abbrev pub build_events : List (ℤ × ℤ) → Option (BTreeMap ContimeKey TestEvent)
build_events raw = add_events raw []

-- the loop of `build_checkpoints`
unfoldable pub add_checkpoints :
    List (ℤ × ℤ × List ℤ) → BTreeMap ContimeKey TestSnapshot → BTreeMap ContimeKey TestSnapshot
add_checkpoints [] map = map
add_checkpoints ((time, sum, items) ∷ raw) map = add_checkpoints raw (
    insert (record { time = time; id = to_unsigned 128 time })
      (record { id = 0; time = time; items = items; sum = sum }) map)

abbrev pub build_checkpoints : List (ℤ × ℤ × List ℤ) → BTreeMap ContimeKey TestSnapshot
build_checkpoints raw = add_checkpoints raw []

-- the arguments of the test
pub record Case : Type 0 where
  pub new_event : ℤ × ℤ
  pub initial_checkpoints : List (ℤ × ℤ × List ℤ)
  pub initial_events : List (ℤ × ℤ)
  pub expected_checkpoints : List (ℤ × ℤ × List ℤ)
  pub expected_events : List (ℤ × ℤ)

abbrev pub empty : Case
empty = record {
  new_event = (pos 1, pos 1);
  initial_checkpoints = [];
  initial_events = [];
  expected_checkpoints = [];
  expected_events = (pos 1, pos 1) ∷ [];
}

abbrev pub in_order : Case
in_order = record {
  new_event = (pos 2, pos 2);
  initial_checkpoints = [];
  initial_events = (pos 1, pos 1) ∷ [];
  expected_checkpoints = (pos 2, pos 3, pos 1 ∷ pos 2 ∷ []) ∷ [];
  expected_events = (pos 1, pos 1) ∷ (pos 2, pos 2) ∷ [];
}

abbrev pub out_of_order : Case
out_of_order = record {
  new_event = (pos 1, pos 1);
  initial_checkpoints = [];
  initial_events = (pos 2, pos 2) ∷ [];
  expected_checkpoints = (pos 2, pos 3, pos 1 ∷ pos 2 ∷ []) ∷ [];
  expected_events = (pos 1, pos 1) ∷ (pos 2, pos 2) ∷ [];
}

abbrev pub duplicate_event : Case
duplicate_event = record {
  new_event = (pos 1, pos 1);
  initial_checkpoints = [];
  initial_events = (pos 1, pos 1) ∷ [];
  expected_checkpoints = [];
  expected_events = (pos 1, pos 1) ∷ [];
}

unfoldable pub test_apply_event_in_place : Case → Option (Unit {0})
test_apply_event_in_place case = do
  let checkpoints = build_checkpoints case.initial_checkpoints
  events ← build_events case.initial_events
  expected_events ← build_events case.expected_events
  let expected_checkpoints = build_checkpoints case.expected_checkpoints
  new_event ← gen_event case.new_event.0 case.new_event.1
  applied ←
      apply_event_in_place test_snapshot new_event base_snapshot checkpoints events
        checkpoint_interval
  events_agree ← assert (same_map same_event expected_events applied.events)
  assert (same_map same_snapshot expected_checkpoints applied.checkpoints)
