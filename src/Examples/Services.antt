-- ===== src/Examples/Services.antt =====
-- The theorems about workers, the router and the handles at concrete inputs.
use contime.Prelude.{
  ◌%◌, ◌≤◌, ℕ, ◌+◌, ◌-◌, ◌^◌, ◌<◌, ◌≡◌, ◌⊎◌, refl, Option, none, some, List, [], ◌∷◌, ◌==◌,
  if◌then◌else◌, arith,
}
use contime.Prelude.Int.{pos, negsuc}
use contime.Worker.{
  QueryResult, not_found, WorkerState, event, snapshot, snapshot_at_time, completed, handle_inbound,
  updated_usage,
}
use contime.Worker.Usage.{usage_tracks}
use contime.Worker.Sound.{Holds, handle_inbound-Holds}
use contime.Api
use contime.Api.{memory_full, not_found_error, router_error}
use contime.Api.Errors.{Settling, apply_event_outcome, at_outcome}
use contime.Router.{Router, RouterError, Receiver, Outcome, send_event, send_snapshot, send_advance}
use contime.Router.Posting.{Posted, Posting, Refuses}
use contime.Router.Budget.{
  Refused, send_event_within_budget, send_event_wraps, send_snapshot_within_budget,
}
use contime.Router.Broadcast.{send_advance_to_all}
use contime.Examples.Boxes.{Box, box, box-IsFifo, holding, same_hash, first_event, the_advance}
use contime.Handle.Repeated.{poll_until, poll_until-wait}
use contime.Handle.Waiting.{block_on, block_on-wait}
use contime.Handle.{ok, wait, Polled, received, empty, try_recv}
use contime.Handle.Polling.{try_recv-verdict}
use contime.Lanes.{SnapshotLane, snapshot_lane, EventLane, event_lane}
use contime.Fixtures.{TestEvent, TestSnapshot, test_snapshot, test_lanes}
use contime.Examples.Data.{
  ListChannel, list_channel, TestHistory, blank, first, entry_list, entry_list-IsTable,
}

abbrev idle : WorkerState (List (ℕ × TestHistory))
idle = record { history_by_id = []; memory_usage = 0 }

handle_inbound-Holds_example :
    (w' : WorkerState (List (ℕ × TestHistory))) × (handle_inbound test_snapshot list_channel
        entry_list
        (pos 1000)
        (event 1 first blank)
        idle
      ≡ some (w', completed))
    × Holds test_snapshot list_channel entry_list (λ k. ◌≡◌ {A = ℕ} (k % 3) 1) w'.history_by_id
handle_inbound-Holds_example =
    handle_inbound-Holds test_snapshot list_channel entry_list (λ k. ◌≡◌ {A = ℕ} (k % 3) 1)
      entry_list-IsTable (pos 1000) (event 1 first blank) idle (refl, refl) (λ k. tt)

usage_tracks_example : updated_usage (negsuc 41) (100 + 50) ≡ 100 + 8
usage_tracks_example =
    usage_tracks (negsuc 41) 100 50 8 (record { below = omega arith; above = omega arith })
      (omega arith) (omega arith) (omega arith) refl

abbrev router : Router Box
router = record {
  workers = holding [] ∷ holding [] ∷ holding [] ∷ [];
  memory_budget = 1000;
  memory_usage = 100;
  channels = 7;
}

send_event_within_budget_example :
    Refused test_lanes box box-IsFifo same_hash 42 router
      (send_event test_lanes box.inbox same_hash (event_lane first) router)
    ⊎ ((142 < 1000)
        × Posting test_lanes box box-IsFifo same_hash
            ((1, first_event) ∷ [])
            router
            (send_event test_lanes box.inbox same_hash (event_lane first) router))
send_event_within_budget_example =
    send_event_within_budget test_lanes box box-IsFifo same_hash (event_lane first) router
      (omega arith) (omega arith)

send_snapshot_within_budget_example :
    Refused test_lanes box box-IsFifo same_hash 28 router
      (send_snapshot test_lanes box.inbox same_hash (snapshot_lane blank) router)
    ⊎ ((128 < 1000)
        × Posting test_lanes box box-IsFifo same_hash
            ((1, snapshot (snapshot_lane blank)) ∷ [])
            router
            (send_snapshot test_lanes box.inbox same_hash (snapshot_lane blank) router))
send_snapshot_within_budget_example =
    send_snapshot_within_budget test_lanes box box-IsFifo same_hash (snapshot_lane blank) router
      (omega arith) (omega arith)

send_event_wraps_example :
    Posting test_lanes box box-IsFifo same_hash
      ((1, first_event) ∷ [])
      (record router { memory_usage = 2 ^ 64 - 42 })
      (send_event test_lanes box.inbox same_hash
        (event_lane first)
        (record router { memory_usage = 2 ^ 64 - 42 }))
send_event_wraps_example =
    send_event_wraps test_lanes box box-IsFifo same_hash (event_lane first)
      (record router { memory_usage = 2 ^ 64 - 42 }) (omega arith) refl (omega arith)

send_advance_to_all_example :
    Posting test_lanes box box-IsFifo same_hash
      ((0, the_advance) ∷ (1, the_advance) ∷ (2, the_advance) ∷ [])
      router
      (send_advance test_lanes box.inbox same_hash (pos 20) router)
send_advance_to_all_example =
    send_advance_to_all test_lanes box box-IsFifo same_hash (pos 20) router

-- a receiver is what it shows
abbrev poll : Polled (Unit {0}) → Polled (Unit {0})
poll rx = rx

try_recv-verdict_example : (try_recv poll (empty ∷ received tt ∷ received tt ∷ [])).0 ≡ ok none
try_recv-verdict_example = try_recv-verdict poll (empty ∷ received tt ∷ received tt ∷ [])

-- the reply on the channel 7 comes, and says that the worker has no history of the id
abbrev done : Receiver (SnapshotLane TestSnapshot) (EventLane TestEvent) → Option (Unit {0})
done rx = if rx.number == 7 then some tt else none

abbrev replied :
    Receiver (SnapshotLane TestSnapshot) (EventLane TestEvent)
    → Option (QueryResult (SnapshotLane TestSnapshot) ListChannel)
replied rx = if rx.number == 7 then some not_found else none

abbrev out_of_lane : SnapshotLane TestSnapshot → TestSnapshot
out_of_lane (snapshot_lane s) = s

apply_event_outcome_example :
    ((1000 ≤ 142)
      × (Api.apply_event test_lanes box.inbox same_hash done replied event_lane first router
          ≡ Outcome.err memory_full router))
    ⊎ ((142 < 1000)
        × Settling test_lanes box box-IsFifo same_hash done replied
            ((1, first_event) ∷ [])
            router
            (Api.apply_event test_lanes box.inbox same_hash done replied event_lane first router))
apply_event_outcome_example =
    apply_event_outcome test_lanes box box-IsFifo same_hash done replied event_lane first router
      (omega arith) (omega arith)

at_outcome_example :
    ((r' : Router Box) × Posted test_lanes box box-IsFifo same_hash
        ((1, snapshot_at_time 1 (pos 11)) ∷ [])
        router
        r'
      × (Api.at test_lanes box.inbox same_hash done replied out_of_lane (pos 11) 1 router
          ≡ Outcome.err not_found_error r'))
    ⊎ ((Api.at test_lanes box.inbox same_hash done replied out_of_lane (pos 11) 1 router
          ≡ Outcome.err (router_error RouterError.error) router)
        × Refuses test_lanes box box-IsFifo same_hash (1, snapshot_at_time 1 (pos 11)) router)
at_outcome_example =
    at_outcome test_lanes box box-IsFifo same_hash done replied out_of_lane (pos 11) 1 router
      (omega arith)

-- a receiver is the time at which its reply is due, and what becomes of it
abbrev due : ℕ × Option (Unit {0}) → ℕ
due rx = rx.0

abbrev outcome_of : ℕ × Option (Unit {0}) → Option (Unit {0})
outcome_of rx = rx.1

block_on-wait_example :
    block_on outcome_of due 3 0 ((2, some tt) ∷ (3, none) ∷ [])
    ≡ some (wait outcome_of ((2, some tt) ∷ (3, none) ∷ []))
block_on-wait_example =
    block_on-wait outcome_of due 3 0 3 ((2, some tt) ∷ (3, none) ∷ [])
      (omega arith, (omega arith, tt)) (omega arith)

poll_until-wait_example :
    poll_until outcome_of due 3 0 ((2, some tt) ∷ (0, some tt) ∷ (3, some tt) ∷ [])
    ≡ some (wait outcome_of ((2, some tt) ∷ (0, some tt) ∷ (3, some tt) ∷ []))
poll_until-wait_example =
    poll_until-wait outcome_of due 3 0 3 ((2, some tt) ∷ (0, some tt) ∷ (3, some tt) ∷ [])
      (omega arith, (omega arith, (omega arith, tt))) (omega arith)
