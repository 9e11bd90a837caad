-- ===== src/Fixtures.antt =====
-- src/test: the snapshot and the events that the crate exports for tests and examples.
use contime.Prelude.{ℕ, ◌+◌, ◌-◌, ◌*◌, ◌%◌, ◌^◌, List, [], ◌∷◌, ◌++◌, length, ltb, if◌then◌else◌}
use contime.Prelude.Int.{ℤ, pos, negsuc}
use contime.Lanes.{SnapshotLane, EventLane, single_lanes}
use contime.Traits.{Snapshot, EventLanes}

-- the bit pattern of an integer in `w` bits, and the integer of a bit pattern
abbrev pub to_unsigned : ℕ → ℤ → ℕ
to_unsigned w (pos n) = n % 2 ^ w
to_unsigned w (negsuc n) = 2 ^ w - 1 - n % 2 ^ w

abbrev pub to_signed : ℕ → ℕ → ℤ
to_signed w n = let u = n % 2 ^ w in if ltb u (2 ^ (w - 1)) then pos u else negsuc (2 ^ w - 1 - u)

-- src/test/events.rs; the fields are the snapshot id, the time, the event id and the value
pub data TestEvent : Type 0 where
  positive : ℕ → ℤ → ℕ → ℕ → TestEvent
  negative : ℕ → ℤ → ℕ → ℕ → TestEvent

abbrev pub event_id : TestEvent → ℕ
event_id (positive snapshot_id time id value) = id
event_id (negative snapshot_id time id value) = id

abbrev pub event_time : TestEvent → ℤ
event_time (positive snapshot_id time id value) = time
event_time (negative snapshot_id time id value) = time

abbrev pub event_size : TestEvent → ℕ
event_size event = 16 + 8 + 16 + 2

abbrev pub event_snapshot_id : TestEvent → ℕ
event_snapshot_id (positive snapshot_id time id value) = snapshot_id
event_snapshot_id (negative snapshot_id time id value) = snapshot_id

-- src/test/snapshots.rs
pub record TestSnapshot : Type 0 where
  pub id : ℕ
  pub time : ℤ
  pub items : List ℤ
  pub sum : ℤ

-- `*value as i16` and its negation; the sums of `i32` wrap around
abbrev pub apply_to : TestEvent → TestSnapshot → TestSnapshot
apply_to (positive snapshot_id time id value) s = record s {
  items = s.items ++ to_signed 16 value ∷ [];
  sum = to_signed 32 (to_unsigned 32 s.sum + value);
}
apply_to (negative snapshot_id time id value) s = record s {
  items = s.items ++ to_signed 16 (2 ^ 16 - value % 2 ^ 16) ∷ [];
  sum = to_signed 32 (to_unsigned 32 s.sum + (2 ^ 32 - value));
}

abbrev pub snapshot_size : TestSnapshot → ℕ
snapshot_size s = 16 + 8 + 4 + length s.items * 2

abbrev pub from_event : TestEvent → TestSnapshot
from_event event = record {
  id = event_snapshot_id event;
  time = event_time event;
  items = [];
  sum = pos 0;
}

abbrev pub test_snapshot : Snapshot TestSnapshot TestEvent
test_snapshot = record {
  event = record { id = event_id; time = event_time; conservative_size = event_size };
  apply = record { snapshot_id = event_snapshot_id; apply_to = apply_to };
  id = λ s. s.id;
  time = λ s. s.time;
  set_time = λ t s. record s { time = t };
  conservative_size = snapshot_size;
  from_event = from_event;
}

-- src/test/lanes.rs: the lanes of the one snapshot and its events
abbrev pub test_lanes : EventLanes (SnapshotLane TestSnapshot) (EventLane TestEvent)
test_lanes = single_lanes test_snapshot
