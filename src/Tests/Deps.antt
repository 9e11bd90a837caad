-- ===== src/Tests/Deps.antt =====
-- The test of src/history.rs that puts `TestDeps` in the place of `apply_event_in_place`.
use contime.Prelude.{ℕ, Bool, ◌&&◌, ◌==◌, Option, some, List, [], ◌∷◌, ◌>>=◌, map}
use contime.Prelude.Int.{ℤ, pos}
use contime.Key.{ContimeKey, key_ord}
use contime.BTreeMap.{BTreeMap, insert}
use contime.Channel.{Channel}
use contime.History.{Deps, new, apply_event}
use contime.Fixtures.{TestEvent, positive, event_id, TestSnapshot, test_snapshot}
use contime.Tests.{assert, same_ℤ, same_list}

-- what `TestDeps` expects to be called with, and what it returns
pub record TestDeps : Type 0 where
  pub new_event : TestEvent
  pub snapshot_id : ℕ
  pub checkpoints : BTreeMap ContimeKey TestSnapshot
  pub events : BTreeMap ContimeKey TestEvent
  pub checkpoint_interval : ℕ
  pub bytes_delta : ℤ

-- `Default for TestDeps`
abbrev pub default : TestDeps
default = record {
  new_event = positive 0 (pos 0) 0 0;
  snapshot_id = 0;
  checkpoints = [];
  events = [];
  checkpoint_interval = 0;
  bytes_delta = pos 0;
}

abbrev pub same_place : ℕ × ℤ → ℕ × ℤ → Bool
same_place a b = a.0 == b.0 && same_ℤ a.1 b.1

abbrev pub event_ids : BTreeMap ContimeKey TestEvent → List ℕ
event_ids events = map (λ e. (e.0).id) events

abbrev pub places : BTreeMap ContimeKey TestSnapshot → List (ℕ × ℤ)
places checkpoints = map (λ e. ((e.0).id, (e.0).time)) checkpoints

-- `Deps for TestDeps`: a wrong argument panics, and the maps stay
abbrev pub test_deps : TestDeps → Deps TestSnapshot TestEvent
test_deps expected = record {
  apply_event_in_place = λ new_event base_snapshot checkpoints events checkpoint_interval. do
    right_event ← assert (event_id expected.new_event == event_id new_event)
    right_events ← assert (same_list ◌==◌ (event_ids expected.events) (event_ids events))
    right_checkpoints ←
        assert (same_list same_place (places expected.checkpoints) (places checkpoints))
    right_interval ← assert (expected.checkpoint_interval == checkpoint_interval)
    some
        (record { checkpoints = checkpoints; events = events; bytes_delta = expected.bytes_delta });
}

-- the arguments of the test
pub record Case : Type 0 where
  pub bytes_delta : ℤ
  pub snapshot_id : ℕ
  pub event : ℕ × ℕ
  pub checkpoints : List ℤ
  pub events : List (ℕ × ℤ)
  pub checkpoint_interval : ℕ
  pub expected : ℤ

abbrev pub empty : Case
empty = record {
  bytes_delta = pos 1;
  snapshot_id = 2;
  event = (2, 3);
  checkpoints = [];
  events = [];
  checkpoint_interval = 0;
  expected = pos 1;
}

abbrev pub different_snapshot : Case
different_snapshot = record {
  bytes_delta = pos 1;
  snapshot_id = 2;
  event = (3, 3);
  checkpoints = [];
  events = [];
  checkpoint_interval = 0;
  expected = pos 1;
}

-- `collect` into a map
unfoldable pub collect {ℓ} :
    {V : Type ℓ} → List (ContimeKey × V) → BTreeMap ContimeKey V → BTreeMap ContimeKey V
collect [] m = m
collect ((k, v) ∷ entries) m = collect entries (insert k v m)

abbrev pub checkpoint_at : ℕ → ℤ → ContimeKey × TestSnapshot
checkpoint_at snapshot_id time = (
  record { time = time; id = snapshot_id },
  record { id = snapshot_id; time = time; items = []; sum = pos 0 },
)

abbrev pub event_at : ℕ → ℕ × ℤ → ContimeKey × TestEvent
event_at snapshot_id (id, time) = (record { time = time; id = id }, positive id time snapshot_id 1)

module _ {μ} {C : Type μ} (F : Channel C) where
  unfoldable pub test_apply_event : Case → Option (Unit {0})
  test_apply_event case =
      let snapshot : TestSnapshot = record {
        id = case.snapshot_id;
        time = pos 0;
        items = [];
        sum = pos 0;
      } in
      let history = record (new test_snapshot F snapshot (pos 0) (pos 1000)).0 {
        checkpoints = collect (map (checkpoint_at case.snapshot_id) case.checkpoints) [];
        events = collect (map (event_at case.snapshot_id) case.events) [];
        checkpoint_interval = case.checkpoint_interval;
      } in
      let new_event = positive case.event.0 (pos 0) case.event.1 1 in
      let deps = record default {
        new_event = new_event;
        snapshot_id = case.snapshot_id;
        checkpoints = history.checkpoints;
        events = history.events;
        checkpoint_interval = history.checkpoint_interval;
        bytes_delta = case.bytes_delta;
      } in
      do
        actual ← apply_event test_snapshot F (test_deps deps) new_event history
        assert (same_ℤ case.expected actual.1)
