-- ===== src/Examples/Many.antt =====
-- The theorems about the form of the macro for several snapshots at concrete inputs.
use contime.Prelude.{ℕ, ◌≡◌, refl, some, List, [], ◌∷◌, arith}
use contime.Prelude.Int.{ℤ, pos}
use contime.Key.{key_ord, compare_key}
use contime.BTreeMap.{contains_key}
use contime.BTreeMap.Ranges.{before}
use contime.History.{History, new, snapshot_at}
use contime.History.Ledger.{Command, event, snapshot, perform_all}
use contime.Lanes.Typed.{lanes_keep_type}
use contime.History.Query.{query_key}
use contime.History.Valid.{IsValid}
use contime.Lanes.Multi.{
  SnapshotLanes, in_lane, VariantLanes, variant, Declared, ok, try_from, taken, lanes_snapshot,
  lanes_event,
}
use contime.Lanes.Mapped.{apply_mapped, mapped_query, try_from-in_lane}
use contime.Fixtures.{TestEvent, TestSnapshot, test_snapshot}
use contime.Examples.Data.{
  ListChannel, list_channel, blank, first, late, test-SetsTime, test-IgnoresTime,
}

abbrev Snapshots : ℕ → Type 0
Snapshots i = TestSnapshot

abbrev Events : ℕ → Type 0
Events i = TestEvent

-- each variant is mapped to the snapshot at its own place
abbrev declared : Declared Snapshots Events Events
declared = record {
  snapshot = λ i. test_snapshot;
  event = λ j. test_snapshot.event;
  apply = λ j i. test_snapshot.apply;
  into = λ j i e. e;
  first = λ j. j;
  others = λ j. [];
}

-- a snapshot of the first type, with one event for it and one for the other type
abbrev both_kinds : History (SnapshotLanes Snapshots) (VariantLanes Events) ListChannel
both_kinds = record {
  snapshot_id = 1;
  base_snapshot = in_lane 0 blank;
  checkpoints = [];
  events =
      (record { time = pos 5; id = 5 }, variant 1 late)
      ∷ (record { time = pos 10; id = 10 }, variant 0 first)
      ∷ [];
  checkpoint_interval = 100;
  current_time = pos 0;
  lower_time_horizon_delta = pos 1000;
  reconciliation = record { messages = []; limit = 1000 };
}

both_kinds-IsValid : IsValid (lanes_snapshot declared) list_channel both_kinds
unfolding key_ord compare_key lanes_event
both_kinds-IsValid = record {
  maps = record {
    events_sorted = ((refl, tt), (tt, tt));
    checkpoints_sorted = tt;
    exact = tt;
    keyed = (refl, (refl, tt));
  };
  interval = omega arith;
}

mapped_query_example :
    snapshot_at (lanes_snapshot declared) list_channel (pos 11) both_kinds
    ≡ some (
      in_lane 0 (
          test_snapshot.set_time
            (pos 11)
            (apply_mapped declared 0 blank (before (query_key (pos 11) 1) both_kinds.events))),
      both_kinds.reconciliation,
    )
unfolding contains_key key_ord compare_key
mapped_query_example =
    mapped_query declared list_channel (λ i. test-SetsTime)
      (λ j i e t s. test-IgnoresTime.apply_to-set_time e t s) (pos 11) 0 blank both_kinds
      both_kinds-IsValid refl refl

-- the event of the other type leaves no trace
abbrev only_first : TestSnapshot
only_first = test_snapshot.apply.apply_to first blank

mapped-both_kinds :
    apply_mapped declared 0 blank (before (query_key (pos 11) 1) both_kinds.events) ≡ only_first
unfolding key_ord compare_key
mapped-both_kinds = refl

try_from-in_lane_example :
    ((lane : SnapshotLanes Snapshots) → taken 1 (try_from 1 lane) ≡ lane)
    × ((s : TestSnapshot) → try_from {S = Snapshots} 1 (in_lane 1 s) ≡ ok s)
try_from-in_lane_example = try_from-in_lane Snapshots 1

-- events of both variants, and a snapshot of the first type between them
abbrev mixed : List (Command (SnapshotLanes Snapshots) (VariantLanes Events))
mixed =
    event (variant 1 late)
    ∷ snapshot (in_lane 0 (record blank { time = pos 7; sum = pos 50 }))
    ∷ event (variant 0 first)
    ∷ []

lanes_keep_type_example :
    (h : History (SnapshotLanes Snapshots) (VariantLanes Events) ListChannel) × (perform_all
        (lanes_snapshot declared)
        list_channel
        mixed
        (new (lanes_snapshot declared) list_channel (in_lane 0 blank) (pos 0) (pos 1000)).0
      ≡ some h)
    × ((t : ℤ) (lane : SnapshotLanes Snapshots) (c : ListChannel)
        → snapshot_at (lanes_snapshot declared) list_channel t h ≡ some (lane, c)
        → (u : Snapshots 0) × (lane ≡ in_lane 0 u) × (try_from 0 lane ≡ ok u))
lanes_keep_type_example =
    lanes_keep_type declared list_channel 0 blank (pos 0) (pos 1000) mixed
      (tt, ((_, refl), (tt, tt)))
