-- ===== src/Examples/Onboarding.antt =====
-- The program examples/ordered_values.rs: what its calls return, and the notification it waits for.
use contime.Prelude.{ℕ, ◌≡◌, refl, Option, none, some, List, [], ◌∷◌}
use contime.Prelude.Int.{ℤ, pos}
use contime.Channel.{Reconciliation}
use contime.History.{History}
use contime.Worker.{
  WorkerState, Reply, completed, answered, found, not_found, stopped, handle_worker,
}
use contime.Lanes.{SnapshotLane, EventLane, from_lane}
use contime.OrderedValues.{OrderedValuesSnapshot, ReceiveValue, ordered_values_lanes, main}
use contime.Examples.Data.{ListChannel, list_channel, entry_list}

abbrev idle :
    WorkerState
      (List (ℕ × History (SnapshotLane OrderedValuesSnapshot) (EventLane ReceiveValue) ListChannel))
idle = record { history_by_id = []; memory_usage = 0 }

-- the values that the queries find, and the notifications that wait by then
abbrev answers_of :
    List (Reply (SnapshotLane OrderedValuesSnapshot) ListChannel)
    → List (List ℤ × List Reconciliation)
answers_of [] = []
answers_of (answered (found s c) ∷ replies) =
    ((from_lane s).values, c.messages) ∷ answers_of replies
answers_of (answered not_found ∷ replies) = answers_of replies
answers_of (completed ∷ replies) = answers_of replies
answers_of (stopped ∷ replies) = answers_of replies

abbrev replies_of {ν} :
    {W : Type ν}
    → Option (W × List (Reply (SnapshotLane OrderedValuesSnapshot) ListChannel))
    → List (List ℤ × List Reconciliation)
replies_of none = []
replies_of (some r) = answers_of r.1

abbrev reconsidered : Reconciliation
reconsidered = record { snapshot_id = 1; from_time = pos 7; to_time = pos 10 }

main-answers :
    replies_of (handle_worker ordered_values_lanes.lane list_channel entry_list (pos 0) main idle)
    ≡ (pos 50 ∷ pos 100 ∷ [], [])
      ∷ (pos 50 ∷ [], reconsidered ∷ [])
      ∷ (pos 50 ∷ pos 70 ∷ [], reconsidered ∷ [])
      ∷ (pos 50 ∷ pos 70 ∷ pos 100 ∷ [], reconsidered ∷ [])
      ∷ []
unfolding handle_worker contime.Worker.handle_inbound contime.Worker.handle_event
    contime.History.apply_event contime.Apply.apply_event_in_place contime.BTreeMap.contains_key
    contime.Worker.entry_or_new contime.History.new contime.BTreeMap.insert contime.Key.key_ord
    contime.Key.compare_key contime.Apply.apply_latest contime.Worker.answer
    contime.History.snapshot_at contime.BTreeMap.range contime.Apply.apply_out_of_order
    contime.Apply.remove_stale contime.Apply.replay_start contime.Apply.replay
    contime.Apply.replay_and_checkpoint contime.Apply.replay_loop contime.Apply.step
    contime.BTreeMap.get contime.BTreeMap.remove contime.History.apply_all
    contime.History.notify_late contime.Prelude.Word.add_i64 contime.Prelude.Word.saturating_add
    contime.Prelude.Word.saturating_sub contime.Prelude.Word.sub_i64 contime.Prelude.Word.to_i64
    contime.Sizes.subtract_sizes contime.Worker.updated_usage
main-answers = refl
