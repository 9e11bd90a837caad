-- ===== src/Tests/History.antt =====
-- The tests of src/history.rs about snapshots, pruning and reconciliations. What waits on the
-- receiver of reconciliations is what the channel has queued.
use contime.Prelude.{
  ℕ, zero, suc, ◌+◌, ◌==◌, Bool, false, Option, none, some, List, [], ◌∷◌, ◌>>=◌, length,
}
use contime.Prelude.Int.{ℤ, pos, ltb_ℤ}
use contime.Prelude.Word.{to_i64}
use contime.Key.{ContimeKey, key_ord}
use contime.BTreeMap.{get}
use contime.Channel.{Reconciliation, Channel}
use contime.Apply.{is_end}
use contime.History.{History, def_deps, new, advance, apply_event, apply_snapshot, snapshot_at}
use contime.Fixtures.{TestEvent, positive, TestSnapshot, test_snapshot}
use contime.Tests.{assert, same_ℤ, same_snapshot}

-- `TestSnapshot { id: 1, ... }`
abbrev pub one : ℤ → ℤ → List ℤ → TestSnapshot
one time sum items = record { id = 1; time = time; items = items; sum = sum }

-- `assert_eq!(history.checkpoints.get(&key), Some(&snapshot))`
abbrev pub is_snapshot : TestSnapshot → Option TestSnapshot → Bool
is_snapshot expected none = false
is_snapshot expected (some found) = same_snapshot expected found

module _ {μ} {C : Type μ} (F : Channel C) where
  abbrev pub Histories : Type μ
  Histories = History TestSnapshot TestEvent C

  -- `SnapshotHistory::new(base, now, delta)` for the base at time 0
  abbrev pub started : ℤ → ℤ → Histories
  started now delta = (new test_snapshot F (one (pos 0) (pos 0) []) now delta).0

  -- `history.apply_event(TestEvent::Positive(1, time, id, value))`
  abbrev pub apply_positive : ℕ → ℕ → ℕ → Histories → Option Histories
  apply_positive time id value history = do
    applied ←
        apply_event test_snapshot F (def_deps test_snapshot) (positive 1 (pos time) id value)
          history
    some applied.0

  -- `try_recv().unwrap()`
  abbrev pub received : Histories → Option Reconciliation
  received history = elim (F.queued history.reconciliation) [ [] ↦ none | r ∷ rest ↦ some r ]

  abbrev pub assert_reconciliation : ℕ → ℤ → ℤ → Histories → Option (Unit {0})
  assert_reconciliation snapshot_id from_time to_time history = do
    recon ← received history
    right_id ← assert (recon.snapshot_id == snapshot_id)
    right_start ← assert (same_ℤ recon.from_time from_time)
    assert (same_ℤ recon.to_time to_time)

  unfoldable pub test_apply_snapshot_wrong_id : Option (Unit {0})
  test_apply_snapshot_wrong_id = do
    let wrong_snapshot : TestSnapshot = record {
      id = 2;
      time = pos 5;
      items = pos 1 ∷ pos 2 ∷ [];
      sum = pos 10;
    }
    applied ← apply_snapshot test_snapshot F wrong_snapshot (started (pos 0) (pos 1000))
    no_delta ← assert (same_ℤ applied.1 (pos 0))
    assert (is_end (applied.0).checkpoints)

  unfoldable pub test_apply_snapshot_no_events : Option (Unit {0})
  test_apply_snapshot_no_events = do
    let auth_snapshot = one (pos 5) (pos 10) (pos 1 ∷ pos 2 ∷ [])
    let expected_size = to_i64 (test_snapshot.conservative_size auth_snapshot)
    applied ← apply_snapshot test_snapshot F auth_snapshot (started (pos 0) (pos 1000))
    right_delta ← assert (same_ℤ applied.1 expected_size)
    let key : ContimeKey = record { time = pos 5; id = 1 }
    assert (is_snapshot auth_snapshot (get key (applied.0).checkpoints))

  unfoldable pub test_apply_snapshot_between_events : Option (Unit {0})
  test_apply_snapshot_between_events = do
    let history₀ = record (started (pos 0) (pos 1000)) { checkpoint_interval = 2 }
    history₁ ← apply_positive 1 1 10 history₀
    history₂ ← apply_positive 3 3 20 history₁
    history₃ ← apply_positive 5 5 30 history₂
    let auth_snapshot = one (pos 2) (pos 100) (pos 99 ∷ [])
    applied ← apply_snapshot test_snapshot F auth_snapshot history₃
    let snap_key : ContimeKey = record { time = pos 2; id = 1 }
    stored ← assert (is_snapshot auth_snapshot (get snap_key (applied.0).checkpoints))
    result ← snapshot_at test_snapshot F (pos 6) applied.0
    right_sum ← assert (same_ℤ (result.0).sum (pos 150))
    assert (same_ℤ (result.0).time (pos 6))

  unfoldable pub test_apply_snapshot_then_query : Option (Unit {0})
  test_apply_snapshot_then_query = do
    let auth_snapshot = one (pos 5) (pos 42) (pos 1 ∷ [])
    applied ← apply_snapshot test_snapshot F auth_snapshot (started (pos 0) (pos 1000))
    result ← snapshot_at test_snapshot F (pos 5) applied.0
    right_sum ← assert (same_ℤ (result.0).sum (pos 42))
    assert (same_ℤ (result.0).time (pos 5))

  unfoldable pub test_advance_drops_old_events : Option (Unit {0})
  test_advance_drops_old_events = do
    history₁ ← apply_positive 40 40 1 (started (pos 100) (pos 50))
    history₂ ← apply_positive 60 60 2 history₁
    history₃ ← apply_positive 80 80 3 history₂
    let advanced = advance test_snapshot F (pos 20) history₃
    freed ← assert (ltb_ℤ advanced.1 (pos 0))
    assert (length (advanced.0).events == 1)

  unfoldable pub test_advance_promotes_checkpoint_to_base : Option (Unit {0})
  test_advance_promotes_checkpoint_to_base = do
    let history₀ = record (started (pos 0) (pos 50)) { checkpoint_interval = 1 }
    history₁ ← apply_positive 10 10 5 history₀
    history₂ ← apply_positive 20 20 10 history₁
    history₃ ← apply_positive 30 30 15 history₂
    let advanced = (advance test_snapshot F (pos 80) history₃).0
    right_base ← assert (same_ℤ (advanced.base_snapshot).sum (pos 15))
    assert (length advanced.events == 1)

  unfoldable pub test_advance_noop : Option (Unit {0})
  test_advance_noop = do
    let advanced = advance test_snapshot F (pos 10) (started (pos 0) (pos 1000))
    no_delta ← assert (same_ℤ advanced.1 (pos 0))
    no_events ← assert (is_end (advanced.0).events)
    assert (is_end (advanced.0).checkpoints)

  unfoldable pub test_in_order_event_no_reconciliation : Option (Unit {0})
  test_in_order_event_no_reconciliation = do
    history₁ ← apply_positive 1 1 10 (started (pos 0) (pos 1000))
    history₂ ← apply_positive 2 2 20 history₁
    assert (is_end (F.queued history₂.reconciliation))

  unfoldable pub test_out_of_order_event_sends_reconciliation : Option (Unit {0})
  test_out_of_order_event_sends_reconciliation = do
    history₁ ← apply_positive 10 10 10 (started (pos 0) (pos 1000))
    history₂ ← apply_positive 5 5 20 history₁
    assert_reconciliation 1 (pos 5) (pos 10) history₂

  unfoldable pub test_apply_snapshot_sends_reconciliation : Option (Unit {0})
  test_apply_snapshot_sends_reconciliation = do
    history₁ ← apply_positive 10 10 10 (started (pos 0) (pos 1000))
    applied ← apply_snapshot test_snapshot F (one (pos 5) (pos 42) []) history₁
    assert_reconciliation 1 (pos 5) (pos 10) applied.0

  -- `for i in 0..1001`, from `i` on
  unfoldable pub apply_each : ℕ → ℕ → Histories → Option Histories
  apply_each zero i history = some history
  apply_each (suc rounds) i history = do
    applied ← apply_positive i i 1 history
    apply_each rounds (i + 1) applied

  unfoldable pub test_reconciliation_channel_full_no_panic : Option (Unit {0})
  test_reconciliation_channel_full_no_panic = do
    history₁ ← apply_positive 100 100 1 (started (pos 0) (pos 1000))
    history₂ ← apply_each 1001 0 history₁
    some tt
