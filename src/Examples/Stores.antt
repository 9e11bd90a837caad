-- ===== src/Examples/Stores.antt =====
-- The theorem about the router and its threads as one store at a concrete input.
use contime.Prelude.{◌≡◌, refl, some, [], ◌∷◌}
use contime.Prelude.Int.{pos}
use contime.History.{apply_event, notify_late}
use contime.Apply.{apply_event_in_place, apply_latest}
use contime.BTreeMap.{contains_key, insert}
use contime.Key.{key_ord, compare_key}
use contime.Prelude.Word.{to_i64, saturating_add}
use contime.Worker.{
  snapshot_at_time, Reply, completed, handle_inbound, handle_event, entry_or_new, updated_usage,
}
use contime.Worker.Store.{Store, no_entries}
use contime.Worker.Answers.{after, IsRequest, IsReply}
use contime.Router.{query_at, send_event, send_to_each, route, worker_index, send_to}
use contime.System.{event_call, query_call, call, new, turn, round, receive, settle_result, settle}
use contime.System.Service.{Served, opened, asked, handled, Served-reply}
use contime.Lanes.{SnapshotLane, event_lane}
use contime.Lanes.Same.{lane-SetsTime, lane-IgnoresTime}
use contime.Fixtures.{TestSnapshot, test_snapshot, test_lanes}
use contime.Examples.Data.{
  ListChannel, list_channel, first, test-SetsTime, test-IgnoresTime, entry_list, entry_list-IsTable,
}
use contime.Examples.Boxes.{
  Inbound, box, box-IsFifo, same_hash, Sys, turn_at, holding, with_messages, fresh, first_event,
  busy, at_home,
}

abbrev query : Inbound
query = snapshot_at_time 1 (pos 11)

-- an event and a query wait at worker 1, then the query alone
abbrev both : Sys
both = with_messages 2 [] (first_event ∷ query ∷ []) []

abbrev queried : Sys
queried = at_home 2 [] (query ∷ []) []

abbrev IsOpen : Store test_lanes.lane → Sys → Type 0
IsOpen σ sys =
    Served test_lanes list_channel entry_list entry_list-IsTable box box-IsFifo same_hash (pos 1000)
      3 (lane-SetsTime test_snapshot test-SetsTime)
      (lane-IgnoresTime test_snapshot test-IgnoresTime) 1000 σ sys

event-busy :
    call test_lanes box same_hash (event_call (event_lane first)) fresh.router ≡ some busy.router
unfolding call send_event send_to_each route worker_index send_to
event-busy = refl

query-both : call test_lanes box same_hash (query_call (pos 11) 1) busy.router ≡ some both.router
unfolding call query_at route worker_index send_to
query-both = refl

turn-both : turn_at 1 both ≡ some (queried, some completed)
unfolding turn round receive settle_result settle handle_inbound handle_event entry_or_new
    apply_event apply_event_in_place contains_key contime.History.new insert key_ord compare_key
    apply_latest updated_usage notify_late to_i64 saturating_add
turn-both = refl

fresh-IsOpen : IsOpen (no_entries test_lanes.lane) fresh
unfolding new
fresh-IsOpen = opened

both-IsOpen : IsOpen (no_entries test_lanes.lane) both
both-IsOpen =
    asked (asked fresh-IsOpen (event_call (event_lane first)) busy.router event-busy)
      (query_call (pos 11) 1) both.router query-both

abbrev stored : Store test_lanes.lane
stored = after test_lanes.lane ListChannel first_event (no_entries test_lanes.lane)

queried-IsOpen : IsOpen stored queried
queried-IsOpen =
    handled both-IsOpen 1 (holding (first_event ∷ query ∷ [])) first_event (query ∷ []) queried
      (some completed) refl refl (refl, λ p q. tt) turn-both

query-IsRequest : IsRequest test_lanes.lane ListChannel query stored
unfolding contains_key key_ord compare_key insert
query-IsRequest = (refl, refl)

Served-reply_example :
    (sys' : Sys) × (r : Reply (SnapshotLane TestSnapshot) ListChannel) × (turn_at 1 queried
      ≡ some (sys', some r))
    × IsReply test_lanes.lane ListChannel query stored r
    × IsOpen (after test_lanes.lane ListChannel query stored) sys'
Served-reply_example =
    Served-reply test_lanes list_channel entry_list entry_list-IsTable box box-IsFifo same_hash
      (pos 1000) 3 (lane-SetsTime test_snapshot test-SetsTime)
      (lane-IgnoresTime test_snapshot test-IgnoresTime) queried-IsOpen 1 (holding (query ∷ []))
      query [] refl refl query-IsRequest
