-- ===== src/Examples/Histories.antt =====
-- The theorems about one history at concrete inputs, and test runs.
use contime.Prelude.{◌≡◌, refl, [], some, Option, arith, ◌>>=◌}
use contime.Prelude.Int.{ℤ, pos}
use contime.Key.{key_ord, compare_key}
use contime.BTreeMap.{contains_key, insert, range}
use contime.Apply.{
  Applied, step, replay_loop, replay_and_checkpoint, replay, apply_latest, remove_stale,
  replay_start, apply_out_of_order, apply_event_in_place,
}
use contime.Apply.Total.{AppliesWell, apply_event_in_place_total}
use contime.History.{def_deps, new, notify_late, apply_event, apply_all, snapshot_at}
use contime.History.Valid.{IsValid}
use contime.History.Notify.{Notifies, apply_event-Notifies}
use contime.Fixtures.{TestEvent, positive, TestSnapshot, test_snapshot}
use contime.Examples.Data.{
  list_channel, list_channel-IsBounded, TestHistory, blank, start, first, late, plain,
  plain-IsValid,
}

abbrev sum_at : ℤ → Option (TestHistory × ℤ) → Option ℤ
sum_at t r = do
  found ← r
  answer ← snapshot_at test_snapshot list_channel t found.0
  some (answer.0).sum

abbrev both : Option (TestHistory × ℤ)
both = do
  r ← apply_event test_snapshot list_channel (def_deps test_snapshot) first start
  apply_event test_snapshot list_channel (def_deps test_snapshot) late r.0

run_late : sum_at (pos 11) both ≡ some (pos 10)
unfolding apply_event apply_event_in_place apply_latest apply_out_of_order new notify_late
    snapshot_at range contains_key insert key_ord compare_key remove_stale replay_start
    replay_and_checkpoint replay_loop replay step apply_all
run_late = refl

apply_event_in_place_total_example :
    (r : Applied TestSnapshot TestEvent) × (apply_event_in_place test_snapshot first blank [] [] 100
      ≡ some r)
    × AppliesWell test_snapshot first blank [] [] r
apply_event_in_place_total_example =
    apply_event_in_place_total test_snapshot first blank [] [] 100 (omega arith)
      (record { events_sorted = tt; checkpoints_sorted = tt; exact = tt; keyed = tt })

-- an event in between the two of a history
abbrev between : TestEvent
between = positive 1 (pos 7) 7 3

apply_event-Notifies_example :
    (h' : TestHistory) × (d : ℤ) × (apply_event test_snapshot list_channel
        (def_deps test_snapshot)
        between
        plain
      ≡ some (h', d))
    × IsValid test_snapshot list_channel h'
    × Notifies list_channel list_channel-IsBounded 1
        (pos 7)
        plain.events
        plain.reconciliation
        h'.reconciliation
apply_event-Notifies_example =
    apply_event-Notifies test_snapshot list_channel list_channel-IsBounded between plain
      plain-IsValid
