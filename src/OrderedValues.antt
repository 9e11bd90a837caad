-- ===== src/OrderedValues.antt =====
-- examples/ordered_values.rs: a snapshot that collects values, and the events that bring them.
pub mod Order
use contime.Prelude.{ℕ, ◌+◌, ◌*◌, ◌%◌, ◌^◌, List, [], ◌∷◌, ◌++◌, length}
use contime.Prelude.Int.{ℤ, pos}
use contime.Traits.{Event, ApplyEvent, Snapshot, EventLanes}
use contime.Lanes.{SnapshotLane, snapshot_lane, EventLane, event_lane, single_lanes}
use contime.Worker.{WorkerInbound, event, snapshot_at_time}

pub record OrderedValuesSnapshot : Type 0 where
  pub id : ℕ
  pub time : ℤ
  pub values : List ℤ

pub record ReceiveValue : Type 0 where
  pub snapshot_id : ℕ
  pub time : ℤ
  pub event_id : ℕ
  pub value : ℤ

abbrev pub receive_event : Event ReceiveValue
receive_event = record {
  id = λ e. e.event_id;
  time = λ e. e.time;
  conservative_size = λ e. 16 + 8 + 16 + 8;
}

abbrev pub receive_apply : ApplyEvent OrderedValuesSnapshot ReceiveValue
receive_apply = record {
  snapshot_id = λ e. e.snapshot_id;
  apply_to = λ e s. record s { values = s.values ++ e.value ∷ [] };
}

abbrev pub ordered_values : Snapshot OrderedValuesSnapshot ReceiveValue
ordered_values = record {
  event = receive_event;
  apply = receive_apply;
  id = λ s. s.id;
  time = λ s. s.time;
  set_time = λ t s. record s { time = t };
  conservative_size = λ s. (16 + 8 + length s.values * 8) % 2 ^ 64;
  from_event = λ e. record { id = e.snapshot_id; time = e.time; values = [] };
}

-- what the macro makes of them
abbrev pub ordered_values_lanes :
    EventLanes (SnapshotLane OrderedValuesSnapshot) (EventLane ReceiveValue)
ordered_values_lanes = single_lanes ordered_values

abbrev pub receive_value : ℕ → ℤ → ℕ → ℤ → ReceiveValue
receive_value snapshot_id time event_id value = record {
  snapshot_id = snapshot_id;
  time = time;
  event_id = event_id;
  value = value;
}

-- `apply_event` of `main`, and `at`, as the only worker gets them
abbrev pub apply_message :
    ReceiveValue → WorkerInbound (SnapshotLane OrderedValuesSnapshot) (EventLane ReceiveValue)
apply_message e = event e.snapshot_id (event_lane e) (snapshot_lane (ordered_values.from_event e))

-- `main`: two events in order, a query, a late event, and three queries
abbrev pub main : List (WorkerInbound (SnapshotLane OrderedValuesSnapshot) (EventLane ReceiveValue))
main =
    apply_message (receive_value 1 (pos 5) 100 (pos 50))
    ∷ apply_message (receive_value 1 (pos 10) 101 (pos 100))
    ∷ snapshot_at_time 1 (pos 11)
    ∷ apply_message (receive_value 1 (pos 7) 102 (pos 70))
    ∷ snapshot_at_time 1 (pos 6)
    ∷ snapshot_at_time 1 (pos 8)
    ∷ snapshot_at_time 1 (pos 11)
    ∷ []
