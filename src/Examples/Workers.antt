-- ===== src/Examples/Workers.antt =====
-- The theorems about sequences of messages to a worker at concrete inputs.
use contime.Prelude.{ℕ, ◌≡◌, refl, some, List, [], ◌∷◌}
use contime.Prelude.Int.{pos}
use contime.BTreeMap.{contains_key, insert}
use contime.Key.{key_ord, compare_key}
use contime.Worker.{
  WorkerState, WorkerInbound, event, snapshot, snapshot_at_time, Reply, handle_worker,
}
use contime.Worker.Store.{no_entries, Represents}
use contime.Worker.Answers.{
  AreRequests, AreReplies, Everywhere, after_all, handle_worker-Represents,
}
use contime.Fixtures.{TestEvent, positive, TestSnapshot, test_snapshot}
use contime.Examples.Data.{
  ListChannel, list_channel, TestHistory, blank, first, late, test-SetsTime, test-IgnoresTime,
  entry_list, entry_list-IsTable,
}

abbrev idle : WorkerState (List (ℕ × TestHistory))
idle = record { history_by_id = []; memory_usage = 0 }

-- two events, the later one first, queries after each, an authoritative snapshot with an event and
-- a query behind it, and a query of another id
abbrev requests : List (WorkerInbound TestSnapshot TestEvent)
requests =
    event 1 first blank
    ∷ snapshot_at_time 1 (pos 11)
    ∷ event 1 late blank
    ∷ snapshot_at_time 1 (pos 11)
    ∷ snapshot (record blank { time = pos 20; sum = pos 100 })
    ∷ event 1 (positive 1 (pos 30) 30 7) blank
    ∷ snapshot_at_time 1 (pos 31)
    ∷ snapshot_at_time 2 (pos 5)
    ∷ []

requests-AreRequests : AreRequests test_snapshot ListChannel requests (no_entries test_snapshot)
unfolding contains_key key_ord compare_key insert
requests-AreRequests = (
  (refl, (λ p q. tt)),
  (
    (refl, refl),
    (
      (refl, (λ p q. tt)),
      ((refl, refl), (tt, ((refl, (λ p q. (refl, tt))), ((refl, refl), (tt, tt))))),
    ),
  ),
)

idle-Represents :
    Represents test_snapshot list_channel entry_list
      (Everywhere test_snapshot ListChannel)
      (no_entries test_snapshot)
      []
idle-Represents k p = refl

handle_worker-Represents_example :
    (w' : WorkerState (List (ℕ × TestHistory))) × (rs : List (Reply TestSnapshot ListChannel))
    × (handle_worker test_snapshot list_channel entry_list (pos 1000) requests idle ≡ some (w', rs))
    × AreReplies test_snapshot ListChannel requests (no_entries test_snapshot) rs
    × Represents test_snapshot list_channel entry_list
        (Everywhere test_snapshot ListChannel)
        (after_all test_snapshot ListChannel requests (no_entries test_snapshot))
        w'.history_by_id
handle_worker-Represents_example =
    handle_worker-Represents test_snapshot list_channel entry_list test-SetsTime test-IgnoresTime
      entry_list-IsTable (pos 1000) requests (no_entries test_snapshot) idle idle-Represents
      requests-AreRequests
