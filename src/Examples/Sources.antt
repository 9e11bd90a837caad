-- ===== src/Examples/Sources.antt =====
-- The tests of src/apply.rs and src/history.rs on the model.
use contime.Prelude.{ℕ, zero, suc, ◌+◌, ◌≡◌, refl, none, some, Option, []}
use contime.Prelude.Int.{pos}
use contime.Prelude.Word.{to_i64, add_i64, sub_i64}
use contime.Key.{key_ord, compare_key}
use contime.BTreeMap.{contains_key, insert, get, remove, range}
use contime.Sizes.{subtract_sizes}
use contime.Apply.{
  step, replay_loop, replay_and_checkpoint, replay, apply_latest, remove_stale, replay_start,
  apply_out_of_order, apply_event_in_place,
}
use contime.History.{
  new, notify_late, advance, apply_event, install, apply_snapshot, apply_all, snapshot_at,
}
use contime.History.Valid.{IsValid, new-IsValid, apply_event_total}
use contime.Fixtures.{positive, test_snapshot}
use contime.Tests.{assert}
use contime.Tests.Apply
use contime.Tests.Apply.{
  gen_event, add_events, add_checkpoints, test_apply_event_in_place, in_order, out_of_order,
  duplicate_event,
}
use contime.Tests.Deps
use contime.Tests.Deps.{collect, different_snapshot, test_apply_event}
use contime.Tests.History.{
  Histories, one, started, apply_positive, apply_each, test_apply_snapshot_wrong_id,
  test_apply_snapshot_no_events, test_apply_snapshot_between_events, test_apply_snapshot_then_query,
  test_advance_drops_old_events, test_advance_promotes_checkpoint_to_base, test_advance_noop,
  test_in_order_event_no_reconciliation, test_out_of_order_event_sends_reconciliation,
  test_apply_snapshot_sends_reconciliation, test_reconciliation_channel_full_no_panic,
}
use contime.Examples.Data.{list_channel}

abbrev Passes : Option (Unit {0}) → Type 0
Passes outcome = outcome ≡ some tt

apply_cases :
    Passes (test_apply_event_in_place Apply.empty)
    × Passes (test_apply_event_in_place in_order)
    × Passes (test_apply_event_in_place out_of_order)
    × Passes (test_apply_event_in_place duplicate_event)
unfolding test_apply_event_in_place gen_event add_events add_checkpoints assert apply_event_in_place
    apply_latest apply_out_of_order contains_key insert get remove key_ord compare_key remove_stale
    replay_start replay_and_checkpoint replay_loop replay step
apply_cases = (refl, refl, refl, refl)

deps_cases :
    Passes (test_apply_event list_channel Deps.empty)
    × Passes (test_apply_event list_channel different_snapshot)
unfolding test_apply_event collect assert new apply_event notify_late
deps_cases = (refl, refl)

snapshot_tests :
    Passes (test_apply_snapshot_wrong_id list_channel)
    × Passes (test_apply_snapshot_no_events list_channel)
    × Passes (test_apply_snapshot_between_events list_channel)
unfolding test_apply_snapshot_wrong_id test_apply_snapshot_no_events
    test_apply_snapshot_between_events assert new apply_event notify_late apply_snapshot install
    snapshot_at apply_all range apply_event_in_place apply_latest contains_key insert get remove
    key_ord compare_key remove_stale replay_and_checkpoint replay_loop replay step to_i64 add_i64
    sub_i64
snapshot_tests = (refl, refl, refl)

-- This test asks for a range that excludes one key at both ends, from a map that has never held an
-- entry. By its documentation `range` panics on such bounds.
query_test : test_apply_snapshot_then_query list_channel ≡ none
unfolding test_apply_snapshot_then_query new apply_snapshot install snapshot_at range insert key_ord
    compare_key remove_stale replay_and_checkpoint replay_loop
query_test = refl

advance_tests :
    Passes (test_advance_drops_old_events list_channel)
    × Passes (test_advance_promotes_checkpoint_to_base list_channel)
    × Passes (test_advance_noop list_channel)
unfolding test_advance_drops_old_events test_advance_promotes_checkpoint_to_base test_advance_noop
    assert new apply_event notify_late advance subtract_sizes apply_event_in_place apply_latest
    contains_key insert get key_ord compare_key replay step to_i64 add_i64 sub_i64
advance_tests = (refl, refl, refl)

reconciliation_tests :
    Passes (test_in_order_event_no_reconciliation list_channel)
    × Passes (test_out_of_order_event_sends_reconciliation list_channel)
    × Passes (test_apply_snapshot_sends_reconciliation list_channel)
unfolding test_in_order_event_no_reconciliation test_out_of_order_event_sends_reconciliation
    test_apply_snapshot_sends_reconciliation assert new apply_event notify_late apply_snapshot
    install apply_event_in_place apply_latest apply_out_of_order contains_key insert get remove
    key_ord compare_key remove_stale replay_start replay_and_checkpoint replay_loop replay step
    to_i64 add_i64 sub_i64
reconciliation_tests = (refl, refl, refl)

abbrev TestHistories : Type 0
TestHistories = Histories list_channel

positive_total :
    (time id value : ℕ) (h : TestHistories)
    → IsValid test_snapshot list_channel h
    → (h' : TestHistories) × (apply_positive list_channel time id value h ≡ some h')
      × IsValid test_snapshot list_channel h'
positive_total time id value h v =
    let (h', d, e, w) =
      apply_event_total test_snapshot list_channel (positive 1 (pos time) id value) h v in
    (h', rw e refl, w.valid)

-- no call of the loop panics
apply_each_total :
    (rounds i : ℕ) (h : TestHistories)
    → IsValid test_snapshot list_channel h
    → (h' : TestHistories) × (apply_each list_channel rounds i h ≡ some h')
unfolding apply_each
apply_each_total zero i h v = (h, refl)
apply_each_total (suc rounds) i h v =
    let (h₁, e₁, v₁) = positive_total i i 1 h v in
    let (h₂, e₂) = apply_each_total rounds (i + 1) h₁ v₁ in (h₂, rw e₁ e₂)

channel_full_test : Passes (test_reconciliation_channel_full_no_panic list_channel)
unfolding test_reconciliation_channel_full_no_panic
channel_full_test =
    let v = new-IsValid test_snapshot list_channel (one (pos 0) (pos 0) []) (pos 0) (pos 1000) in
    let (h₁, e₁, v₁) = positive_total 100 100 1 (started list_channel (pos 0) (pos 1000)) v in
    let (h₂, e₂) = apply_each_total 1001 0 h₁ v₁ in rw e₁ (rw e₂ refl)
