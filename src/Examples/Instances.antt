-- ===== src/Examples/Instances.antt =====
-- The theorems about the lanes and about the example program at concrete histories.
use contime.Prelude.{◌≡◌, refl, some, [], ◌∷◌, arith}
use contime.Prelude.Int.{pos}
use contime.Key.{key_ord, compare_key, from_event}
use contime.BTreeMap.{contains_key, get}
use contime.History.{snapshot_at}
use contime.History.Valid.{IsValid}
use contime.History.Query.{state_at}
use contime.History.{History}
use contime.Lanes.{SnapshotLane, snapshot_lane, EventLane, event_lane, to_lane, lane_snapshot}
use contime.OrderedValues.{OrderedValuesSnapshot, ReceiveValue, ordered_values, receive_value}
use contime.OrderedValues.Order.{values_in_order}
use contime.Lanes.Same.{bare, lane_query}
use contime.Fixtures.{TestEvent, TestSnapshot, test_snapshot}
use contime.Examples.Data.{ListChannel, list_channel, blank, first, test-SetsTime, test-IgnoresTime}

-- a history of lanes with one event
abbrev lanes : History (SnapshotLane TestSnapshot) (EventLane TestEvent) ListChannel
lanes = record {
  snapshot_id = 1;
  base_snapshot = snapshot_lane blank;
  checkpoints = [];
  events = (from_event test_snapshot.event first, event_lane first) ∷ [];
  checkpoint_interval = 100;
  current_time = pos 0;
  lower_time_horizon_delta = pos 1000;
  reconciliation = record { messages = []; limit = 1000 };
}

lanes-IsValid : IsValid (lane_snapshot test_snapshot) list_channel lanes
lanes-IsValid = record {
  maps = record {
    events_sorted = (tt, tt);
    checkpoints_sorted = tt;
    exact = tt;
    keyed = (refl, tt);
  };
  interval = omega arith;
}

lane_query_example :
    snapshot_at (lane_snapshot test_snapshot) list_channel (pos 11) lanes
    ≡ some (
      to_lane (state_at test_snapshot blank (bare test_snapshot lanes.events) 1 (pos 11)),
      lanes.reconciliation,
    )
unfolding contains_key get key_ord compare_key
lane_query_example =
    lane_query test_snapshot list_channel test-SetsTime test-IgnoresTime (pos 11) lanes
      lanes-IsValid refl

-- the history of src/examples/ordered_values.rs behind its late event
abbrev collected : History OrderedValuesSnapshot ReceiveValue ListChannel
collected = record {
  snapshot_id = 1;
  base_snapshot = record { id = 1; time = pos 0; values = [] };
  checkpoints = [];
  events =
      (record { time = pos 5; id = 100 }, receive_value 1 (pos 5) 100 (pos 50))
      ∷ (record { time = pos 7; id = 102 }, receive_value 1 (pos 7) 102 (pos 70))
      ∷ (record { time = pos 10; id = 101 }, receive_value 1 (pos 10) 101 (pos 100))
      ∷ [];
  checkpoint_interval = 100;
  current_time = pos 0;
  lower_time_horizon_delta = pos 0;
  reconciliation = record { messages = []; limit = 1000 };
}

collected-IsValid : IsValid ordered_values list_channel collected
unfolding key_ord compare_key
collected-IsValid = record {
  maps = record {
    events_sorted = ((refl, (refl, tt)), ((refl, tt), (tt, tt)));
    checkpoints_sorted = tt;
    exact = tt;
    keyed = (refl, (refl, (refl, tt)));
  };
  interval = omega arith;
}

values_in_order_example :
    snapshot_at ordered_values list_channel (pos 8) collected
    ≡ some
        (record { id = 1; time = pos 8; values = pos 50 ∷ pos 70 ∷ [] }, collected.reconciliation)
unfolding contains_key get key_ord compare_key
values_in_order_example = values_in_order list_channel (pos 8) collected collected-IsValid refl
