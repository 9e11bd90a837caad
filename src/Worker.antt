-- ===== src/Worker.antt =====
-- src/worker.rs: the thread that owns a set of histories. A turn of its loop takes the state to
-- the next one and gives the reply; `none` is a panic, which ends the thread.
pub mod Usage
pub mod Sound
pub mod Store
pub mod Answers
pub mod Memory
use contime.Prelude.{
  ℕ, ◌≡◌, Bool, true, false, Option, none, some, List, [], ◌∷◌, ◌>>=◌, if◌then◌else◌, ◌-◌, ◌^◌,
}
use contime.Prelude.Int.{ℤ, pos, negsuc}
use contime.Prelude.Word.{to_u64, saturating_add, saturating_sub}
use contime.Traits.{Snapshot}
use contime.Channel.{Channel}
use contime.Table.{Table}
use contime.History.{History, def_deps, new, advance, apply_event, apply_snapshot, snapshot_at}

-- `-delta` for a negative `delta`, which wraps at the least i64, and `as u64`
abbrev pub magnitude : ℤ → ℕ
magnitude (pos n) = to_u64 (pos n)
magnitude (negsuc n) = 2 ^ 64 - to_u64 (negsuc n)

-- the value that a round of `fetch_saturating_add_signed` writes
unfoldable pub updated_usage : ℤ → ℕ → ℕ
updated_usage (pos n) current = saturating_add current (magnitude (pos n))
updated_usage (negsuc n) current = saturating_sub current (magnitude (negsuc n))

-- `fetch_saturating_add_signed`: a round loads the cell and exchanges it. The list holds, for
-- each exchange that fails, the value that the cell has by then; the last round succeeds.
unfoldable pub fetch_saturating_add_signed : List ℕ → ℤ → ℕ → ℕ
fetch_saturating_add_signed [] delta current = updated_usage delta current
fetch_saturating_add_signed (other ∷ failed) delta current =
    fetch_saturating_add_signed failed delta other

-- `WorkerInbound`, without the channel of the reply
pub data WorkerInbound {ℓ κ} (S : Type ℓ) (E : Type κ) : Type (ℓ ⊔ κ) where
  event : ℕ → E → S → WorkerInbound S E
  snapshot : S → WorkerInbound S E
  snapshot_at_time : ℕ → ℤ → WorkerInbound S E
  advance_time : ℤ → WorkerInbound S E
  shutdown : WorkerInbound S E

-- src/handle.rs, `QueryResult`
pub data QueryResult {ℓ μ} (S : Type ℓ) (C : Type μ) : Type (ℓ ⊔ μ) where
  found : S → C → QueryResult S C
  not_found : QueryResult S C

-- what a turn sends back
pub data Reply {ℓ μ} (S : Type ℓ) (C : Type μ) : Type (ℓ ⊔ μ) where
  completed : Reply S C
  answered : QueryResult S C → Reply S C
  stopped : Reply S C

-- the histories of the thread, and the shared counter of bytes
pub record WorkerState {ν} (M : Type ν) : Type ν where
  pub history_by_id : M
  pub memory_usage : ℕ

module _ {ℓ κ μ ν} {S : Type ℓ} {E : Type κ} {C : Type μ} {M : Type ν} (T : Snapshot S E)
    (F : Channel C) (H : Table M (History S E C)) where
  -- the body of the loop, on what the map has at an id
  unfoldable pub advance_one : ℤ → ℕ → Option (History S E C) → WorkerState M → WorkerState M
  advance_one time id none w = w
  advance_one time id (some history) w =
      let r = advance T F time history in
      record {
        history_by_id = H.insert id r.0 w.history_by_id;
        memory_usage = updated_usage r.1 w.memory_usage;
      }

  -- `for (_snapshot_id, history) in &mut history_by_id`
  unfoldable pub advance_each : ℤ → List ℕ → WorkerState M → WorkerState M
  advance_each time [] w = w
  advance_each time (id ∷ ids) w =
      advance_each time ids (advance_one time id (H.get id w.history_by_id) w)

  -- the history of an id, or a new one, which is put in and counted
  unfoldable pub entry_or_new :
      ℤ → ℕ → S → Option (History S E C) → WorkerState M → History S E C × WorkerState M
  entry_or_new lower_time_horizon_delta snapshot_id initial_snapshot (some history) w = (history, w)
  entry_or_new lower_time_horizon_delta snapshot_id initial_snapshot none w =
      let r = new T F initial_snapshot (pos 0) lower_time_horizon_delta in
      (
        r.0,
        record {
          history_by_id = H.insert snapshot_id r.0 w.history_by_id;
          memory_usage = updated_usage r.1 w.memory_usage;
        },
      )

  unfoldable pub handle_event : ℤ → ℕ → E → S → WorkerState M → Option (WorkerState M × Reply S C)
  handle_event lower_time_horizon_delta snapshot_id new_event initial_snapshot w =
      let (history, w') =
        entry_or_new lower_time_horizon_delta snapshot_id initial_snapshot
          (H.get snapshot_id w.history_by_id) w in
      do
        r ← apply_event T F (def_deps T) new_event history
        some (
          record {
            history_by_id = H.insert snapshot_id r.0 w'.history_by_id;
            memory_usage = updated_usage r.1 w'.memory_usage;
          },
          completed,
        )

  -- the history after the snapshot, and its delta
  unfoldable pub take_snapshot : ℤ → S → Option (History S E C) → Option (History S E C × ℤ)
  take_snapshot lower_time_horizon_delta lane (some history) = apply_snapshot T F lane history
  take_snapshot lower_time_horizon_delta lane none =
      some (new T F lane (pos 0) lower_time_horizon_delta)

  unfoldable pub handle_snapshot : ℤ → S → WorkerState M → Option (WorkerState M × Reply S C)
  handle_snapshot lower_time_horizon_delta lane w =
      let snapshot_id = T.id lane in
      do
        r ← take_snapshot lower_time_horizon_delta lane (H.get snapshot_id w.history_by_id)
        some (
          record {
            history_by_id = H.insert snapshot_id r.0 w.history_by_id;
            memory_usage = updated_usage r.1 w.memory_usage;
          },
          completed,
        )

  unfoldable pub answer : ℤ → Option (History S E C) → Option (QueryResult S C)
  answer time none = some not_found
  answer time (some history) = do r ← snapshot_at T F time history; some (found r.0 r.1)

  -- one turn of the loop of `handle_worker`
  unfoldable pub handle_inbound :
      ℤ → WorkerInbound S E → WorkerState M → Option (WorkerState M × Reply S C)
  handle_inbound lower_time_horizon_delta (advance_time time) w =
      some (advance_each time (H.keys w.history_by_id) w, completed)
  handle_inbound lower_time_horizon_delta (event snapshot_id e initial_snapshot) w =
      handle_event lower_time_horizon_delta snapshot_id e initial_snapshot w
  handle_inbound lower_time_horizon_delta (snapshot s) w =
      handle_snapshot lower_time_horizon_delta s w
  handle_inbound lower_time_horizon_delta (snapshot_at_time snapshot_id time) w = do
    r ← answer time (H.get snapshot_id w.history_by_id)
    some (w, answered r)
  handle_inbound lower_time_horizon_delta shutdown w = some (w, stopped)

  -- `handle_worker` on a sequence of messages: the loop ends at a `Shutdown`
  unfoldable pub handle_worker :
      ℤ → List (WorkerInbound S E) → WorkerState M → Option (WorkerState M × List (Reply S C))
  handle_worker lower_time_horizon_delta [] w = some (w, [])
  handle_worker lower_time_horizon_delta (shutdown ∷ rest) w = some (w, [])
  handle_worker lower_time_horizon_delta (inbound ∷ rest) w = do
    r ← handle_inbound lower_time_horizon_delta inbound w
    s ← handle_worker lower_time_horizon_delta rest r.0
    some (s.0, r.1 ∷ s.1)
