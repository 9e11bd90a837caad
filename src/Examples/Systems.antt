-- ===== src/Examples/Systems.antt =====
-- The theorems about the router with its threads at concrete inputs.
use contime.Prelude.{
  ℕ, zero, suc, All, AllAt, AllAt-replicate, subst, some_injective, ◌+◌, ◌%◌, ◌≤◌, ◌≡◌, refl, some,
  [], ◌∷◌, arith,
}
use contime.Prelude.Int.{pos}
use contime.History.{History, apply_event, notify_late}
use contime.History.Safe.{IsSound}
use contime.Worker.{
  completed, handle_inbound, handle_event, entry_or_new, updated_usage, advance_each,
}
use contime.Router.{
  send_event, send_to_each, route, worker_index, send_to, send_advance, advance_workers,
}
use contime.Apply.{apply_event_in_place, apply_latest}
use contime.BTreeMap.{contains_key, insert}
use contime.Key.{key_ord, compare_key}
use contime.Prelude.Word.{to_i64, saturating_add}
use contime.System.{
  event_call, call, new, turn, round, receive, settle_result, settle, calls, turns, start, later,
  advance_call,
}
use contime.System.Safety.{one_home}
use contime.System.Progress.{work, next, none_left, Turns-le}
use contime.System.Drain.{IsUp, IsChange, IsReady, IsDrained, Completions, drains}
use contime.System.Commute.{turns_commute}
use contime.Lanes.{event_lane}
use contime.Fixtures.{test_lanes}
use contime.Examples.Data.{list_channel, first, entry_list, entry_list-IsTable}
use contime.Examples.Boxes.{
  box, same_hash, Sys, turn_at, IsReached, holding, fresh_thread, with_messages, fresh, first_event,
  the_advance, busy, advancing, with_first, home, at_home, done, Box, box-IsFifo,
}

fresh-IsReached : IsReached fresh
unfolding new
fresh-IsReached = start

turn-busy : turn_at 1 busy ≡ some (done, some completed)
unfolding turn round receive settle_result settle handle_inbound handle_event entry_or_new
    apply_event apply_event_in_place contains_key contime.History.new insert key_ord compare_key
    apply_latest updated_usage notify_late to_i64 saturating_add
turn-busy = refl

event-busy :
    call test_lanes box same_hash (event_call (event_lane first)) fresh.router ≡ some busy.router
unfolding call send_event send_to_each route worker_index send_to
event-busy = refl

advance-advancing :
    call test_lanes box same_hash (advance_call (pos 20)) busy.router ≡ some advancing.router
unfolding call send_advance advance_workers send_to
advance-advancing = refl

busy-IsReached : IsReached busy
busy-IsReached =
    later fresh-IsReached (calls (event_call (event_lane first)) fresh busy.router event-busy)

done-IsReached : IsReached done
done-IsReached = later busy-IsReached (turns 1 busy done (some completed) turn-busy)

advancing-IsReached : IsReached advancing
advancing-IsReached =
    later busy-IsReached (calls (advance_call (pos 20)) busy advancing.router advance-advancing)

one_home_example :
    (1 % 3 ≡ 1) × (with_first.snapshot_id ≡ 1) × IsSound test_lanes.lane list_channel with_first
one_home_example =
    one_home test_lanes list_channel entry_list entry_list-IsTable box box-IsFifo same_hash
      (pos 1000) 3 done-IsReached 1 1 home with_first refl refl

Turns-le_example :
    1
      + work test_lanes list_channel entry_list entry_list-IsTable box box-IsFifo same_hash
          (pos 1000)
          3
          done
    ≤ work test_lanes list_channel entry_list entry_list-IsTable box box-IsFifo same_hash
        (pos 1000)
        3
        busy
Turns-le_example =
    Turns-le test_lanes list_channel entry_list entry_list-IsTable box box-IsFifo same_hash
      (pos 1000) 3 (next 1 0 busy done done (some completed) turn-busy (none_left done))

abbrev AreChanges : ℕ → Box → Type 0
AreChanges i q =
    All
      (IsChange test_lanes list_channel entry_list entry_list-IsTable box box-IsFifo same_hash
        (pos 1000) 3)
      q.messages

advancing-AllAt : AllAt AreChanges advancing.router.workers
advancing-AllAt zero q e =
    subst (AreChanges 0) (some_injective (holding (the_advance ∷ [])) q e) (tt, tt)
advancing-AllAt (suc zero) q e =
    subst (AreChanges 1) (some_injective (holding (first_event ∷ the_advance ∷ [])) q e)
      (tt, (tt, tt))
advancing-AllAt (suc (suc zero)) q e =
    subst (AreChanges 2) (some_injective (holding (the_advance ∷ [])) q e) (tt, tt)
advancing-AllAt (suc (suc (suc i))) q e = cc

advancing-IsReady :
    IsReady test_lanes list_channel entry_list entry_list-IsTable box box-IsFifo same_hash
      (pos 1000)
      3
      advancing
advancing-IsReady = record {
  up =
      AllAt-replicate
        (λ i.
          IsUp test_lanes list_channel entry_list entry_list-IsTable box box-IsFifo same_hash
            (pos 1000) 3)
        3 fresh_thread (λ i. (refl, refl));
  changes = advancing-AllAt;
}

drains_example :
    (t : Sys) × Completions test_lanes list_channel entry_list entry_list-IsTable box box-IsFifo
      same_hash
      (pos 1000)
      3
      4
      advancing
      t
    × IsDrained test_lanes list_channel entry_list entry_list-IsTable box box-IsFifo same_hash
        (pos 1000)
        3
        t
drains_example =
    drains test_lanes list_channel entry_list entry_list-IsTable box box-IsFifo same_hash (pos 1000)
      3 advancing-IsReached advancing-IsReady

-- one turn of each of two threads
abbrev after_event : Sys
after_event = at_home 4 (the_advance ∷ []) (the_advance ∷ []) (the_advance ∷ [])

abbrev after_advance : Sys
after_advance = with_messages 4 [] (first_event ∷ the_advance ∷ []) (the_advance ∷ [])

turn-event : turn_at 1 advancing ≡ some (after_event, some completed)
unfolding turn round receive settle_result settle handle_inbound handle_event entry_or_new
    apply_event apply_event_in_place contains_key contime.History.new insert key_ord compare_key
    apply_latest updated_usage notify_late to_i64 saturating_add
turn-event = refl

turn-advance : turn_at 0 advancing ≡ some (after_advance, some completed)
unfolding turn round receive settle_result settle handle_inbound advance_each
turn-advance = refl

turns_commute_example :
    (t₁ t₂ : Sys) × (turn_at 0 after_event ≡ some (t₁, some completed))
    × (turn_at 1 after_advance ≡ some (t₂, some completed))
    × (t₁.threads ≡ t₂.threads)
    × (t₁.router.workers ≡ t₂.router.workers)
turns_commute_example =
    turns_commute test_lanes list_channel entry_list box same_hash (pos 1000) 1 0 advancing
      after_event after_advance (some completed) (some completed) (λ e. absurd (omega (arith, e)))
      turn-event turn-advance
