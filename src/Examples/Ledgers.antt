-- ===== src/Examples/Ledgers.antt =====
-- The theorem about histories with several authoritative snapshots at a concrete list of commands,
-- and test runs.
use contime.Prelude.{◌≡◌, refl, true, Option, some, List, [], ◌∷◌, ◌>>=◌}
use contime.Prelude.Int.{ℤ, pos}
use contime.Prelude.Word.{sub_i64, to_i64, add_i64}
use contime.Key.{key_ord, compare_key, from_event}
use contime.BTreeMap.{contains_key, insert, get, remove, range}
use contime.Apply.{
  step, replay_loop, replay_and_checkpoint, replay, apply_latest, remove_stale, replay_start,
  apply_out_of_order, apply_event_in_place,
}
use contime.History.{
  advance, drop_key, new, notify_late, apply_event, install, apply_snapshot, apply_all, snapshot_at,
}
use contime.History.Ledger.{
  Command, event, snapshot, take_all, new_ledger, IsFree, InFront, answer_at, perform, perform_all,
}
use contime.Ord.{is_le}
use contime.History.Query.{query_key}
use contime.History.Advance.{IsCovered}
use contime.History.Ledger.Horizon.{pruned, advance_keeps_answers}
use contime.History.Ledger.Refines.{Represents, history_refines_ledger}
use contime.Fixtures.{TestEvent, positive, TestSnapshot, test_snapshot}
use contime.Examples.Data.{
  list_channel, test-SetsTime, test-IgnoresTime, TestHistory, blank, start, first,
}

abbrev at_20 : TestSnapshot
at_20 = record { id = 1; time = pos 20; items = []; sum = pos 100 }

abbrev at_40 : TestSnapshot
at_40 = record { id = 1; time = pos 40; items = []; sum = pos 500 }

-- an event, a snapshot behind it, an event behind the snapshot, a snapshot behind that, and an
-- event between the two snapshots
abbrev commands : List (Command TestSnapshot TestEvent)
commands =
    event first
    ∷ snapshot at_20
    ∷ event (positive 1 (pos 30) 30 7)
    ∷ snapshot at_40
    ∷ event (positive 1 (pos 45) 45 1)
    ∷ event (positive 1 (pos 25) 25 2)
    ∷ []

commands-InFront : InFront test_snapshot commands (new_ledger test_snapshot blank)
unfolding key_ord compare_key contains_key insert
commands-InFront =
    ((λ p q. tt), ((λ p q. (refl, tt)), ((λ p q. (refl, (refl, tt))), ((λ p q. cc), tt))))

history_refines_ledger_example :
    let l = take_all test_snapshot commands (new_ledger test_snapshot blank) in
    (h : TestHistory) × (perform_all test_snapshot list_channel commands
        (new test_snapshot list_channel blank (pos 0) (pos 1000)).0
      ≡ some h)
    × (h.events ≡ l.events)
    × ((t : ℤ)
        → IsFree test_snapshot l t
        → snapshot_at test_snapshot list_channel t h
          ≡ some (answer_at test_snapshot l t, h.reconciliation))
history_refines_ledger_example =
    history_refines_ledger test_snapshot list_channel test-SetsTime test-IgnoresTime blank (pos 0)
      (pos 1000) commands commands-InFront

abbrev sum_after : List (Command TestSnapshot TestEvent) → ℤ → Option ℤ
sum_after cs t = do
  h ←
      perform_all test_snapshot list_channel cs
        (new test_snapshot list_channel blank (pos 0) (pos 1000)).0
  answer ← snapshot_at test_snapshot list_channel t h
  some (answer.0).sum

-- the event at 25 stands before the snapshot at 40, which is forgotten
run_commands :
    (sum_after commands (pos 15) ≡ some (pos 30))
    × (sum_after commands (pos 22) ≡ some (pos 100))
    × (sum_after commands (pos 35) ≡ some (pos 109))
    × (sum_after commands (pos 50) ≡ some (pos 110))
unfolding perform_all perform apply_event apply_snapshot install apply_event_in_place apply_latest
    apply_out_of_order new notify_late snapshot_at range contains_key insert get remove key_ord
    compare_key remove_stale replay_start replay_and_checkpoint replay_loop replay step apply_all
run_commands = (refl, refl, refl, refl)

abbrev third : TestEvent
third = positive 1 (pos 30) 30 7

-- a snapshot between two events
abbrev short : List (Command TestSnapshot TestEvent)
short = event first ∷ snapshot at_20 ∷ event third ∷ []

abbrev after_short : TestHistory
after_short = record start {
  checkpoints = (query_key (pos 20) 1, at_20) ∷ [];
  events =
      (from_event test_snapshot.event first, first)
      ∷ (from_event test_snapshot.event third, third)
      ∷ [];
  reconciliation = record {
    messages = record { snapshot_id = 1; from_time = pos 20; to_time = pos 10 } ∷ [];
    limit = 1000;
  };
}

short-InFront : InFront test_snapshot short (new_ledger test_snapshot blank)
unfolding key_ord compare_key contains_key insert
short-InFront = ((λ p q. tt), ((λ p q. (refl, tt)), tt))

short_performed :
    perform_all test_snapshot list_channel short
      (new test_snapshot list_channel blank (pos 0) (pos 1000)).0
    ≡ some after_short
unfolding perform_all perform apply_event apply_snapshot install apply_event_in_place apply_latest
    new notify_late contains_key insert get remove key_ord compare_key remove_stale
    replay_and_checkpoint replay_loop replay step
short_performed = refl

short-IsCovered : IsCovered test_snapshot list_channel (pos 1025) after_short
unfolding key_ord compare_key sub_i64 to_i64 add_i64
short-IsCovered = refl

advance_keeps_answers_example :
    let l = take_all test_snapshot short (new_ledger test_snapshot blank) in
    Represents test_snapshot list_channel
      (pruned test_snapshot list_channel (pos 1025) after_short l)
      (advance test_snapshot list_channel (pos 1025) after_short).0
    × ((t : ℤ)
        → is_le (
            key_ord.cmp
              (drop_key test_snapshot list_channel (pos 1025) after_short)
              (query_key t l.id))
          ≡ true
        → IsFree test_snapshot l t
        → snapshot_at test_snapshot list_channel t
            (advance test_snapshot list_channel (pos 1025) after_short).0
          ≡ some (
            answer_at test_snapshot l t,
            (advance test_snapshot list_channel (pos 1025) after_short).0.reconciliation,
          ))
advance_keeps_answers_example =
    advance_keeps_answers test_snapshot list_channel test-SetsTime test-IgnoresTime blank (pos 0)
      (pos 1000) short short-InFront after_short short_performed (pos 1025) short-IsCovered
