-- ===== src/History.antt =====
-- src/history.rs: the history of one snapshot. A method that takes `&mut self` returns the new
-- history with its result; `none` is a panic. The two ends of the reconciliation channel, which
-- the history owns, are one value.
pub mod Valid
pub mod Query
pub mod Arrival
pub mod Advance
pub mod Freed
pub mod Install
pub mod Installed
pub mod Notify
pub mod Safe
pub mod Ledger
pub mod Kept
use contime.Prelude.{
  ℕ, ◌≡◌, Bool, true, false, not, Option, none, some, List, [], ◌∷◌, last, ◌==◌, ◌>>=◌,
  if◌then◌else◌, map,
}
use contime.Prelude.Int.{ℤ, pos, ltb_ℤ}
use contime.Prelude.Word.{to_i64, add_i64, sub_i64}
use contime.Key.{ContimeKey, key_ord}
use contime.BTreeMap.{
  BTreeMap, Bound, included, excluded, unbounded, insert, entries, range, split_off,
}
use contime.Sizes.{subtract_sizes}
use contime.Traits.{Snapshot}
use contime.Channel.{Reconciliation, Channel}
use contime.Apply.{Applied, start_from, remove_stale, replay_and_checkpoint, apply_event_in_place}

-- `trait Deps` and `DefDeps`
pub record Deps {ℓ κ} (S : Type ℓ) (E : Type κ) : Type (ℓ ⊔ κ) where
  pub apply_event_in_place :
      E → S → BTreeMap ContimeKey S → BTreeMap ContimeKey E → ℕ → Option (Applied S E)

abbrev pub def_deps {ℓ κ} : {S : Type ℓ} {E : Type κ} → Snapshot S E → Deps S E
def_deps T = record { apply_event_in_place = apply_event_in_place T }

-- `LocalSnapshotHistory`
pub record History {ℓ κ μ} (S : Type ℓ) (E : Type κ) (C : Type μ) : Type (ℓ ⊔ κ ⊔ μ) where
  pub snapshot_id : ℕ
  pub base_snapshot : S
  pub checkpoints : BTreeMap ContimeKey S
  pub events : BTreeMap ContimeKey E
  pub checkpoint_interval : ℕ
  pub current_time : ℤ
  pub lower_time_horizon_delta : ℤ
  pub reconciliation : C

abbrev pub default_checkpoint_interval : ℕ
default_checkpoint_interval = 100

-- the time of the latest entry
abbrev pub last_time {ℓ} : {V : Type ℓ} → BTreeMap ContimeKey V → Option ℤ
last_time m = elim (last m) [ none ↦ none | some e ↦ some (e.0).time ]

-- `if let Some((_key, last_dropped)) = ...`
abbrev pub promoted {ℓ} : {S : Type ℓ} → S → Option (ContimeKey × S) → S
promoted base_snapshot none = base_snapshot
promoted base_snapshot (some (key, last_dropped)) = last_dropped

-- `.unwrap_or(snapshot.time())`
abbrev pub time_or : ℤ → Option ℤ → ℤ
time_or t none = t
time_or t (some u) = u

module _ {ℓ κ} {S : Type ℓ} {E : Type κ} (T : Snapshot S E) where
  -- `for (_key, event) in ... { event.apply_to(&mut snapshot); }`
  unfoldable pub apply_all : S → BTreeMap ContimeKey E → S
  apply_all snapshot [] = snapshot
  apply_all snapshot ((key, event) ∷ rest) = apply_all (T.apply.apply_to event snapshot) rest

module _ {μ} {C : Type μ} (F : Channel C) where
  -- the notification about an event out of order
  unfoldable pub notify_late : ℕ → ℤ → Option ℤ → C → C
  notify_late snapshot_id event_time none channel = channel
  notify_late snapshot_id event_time (some latest_time) channel =
      if ltb_ℤ event_time latest_time
      then F.try_send
          (record { snapshot_id = snapshot_id; from_time = event_time; to_time = latest_time })
          channel
      else channel

module _ {ℓ κ μ} {S : Type ℓ} {E : Type κ} {C : Type μ} (T : Snapshot S E) (F : Channel C) where
  unfoldable pub new : S → ℤ → ℤ → History S E C × ℤ
  new snapshot current_time lower_time_horizon_delta =
      let base_snapshot = T.set_time (pos 0) snapshot in
      (
        record {
          snapshot_id = T.id snapshot;
          base_snapshot = base_snapshot;
          checkpoints = [];
          events = [];
          checkpoint_interval = default_checkpoint_interval;
          current_time = current_time;
          lower_time_horizon_delta = lower_time_horizon_delta;
          reconciliation = F.bounded 1000;
        },
        to_i64 (T.conservative_size base_snapshot),
      )

  abbrev pub drop_key : ℤ → History S E C → ContimeKey
  drop_key time h = record {
    time = sub_i64 (add_i64 h.current_time time) h.lower_time_horizon_delta;
    id = 0;
  }

  unfoldable pub advance : ℤ → History S E C → History S E C × ℤ
  advance time h =
      let key = drop_key time h in
      let (dropped_events, kept_events) = split_off key h.events in
      let after_events = subtract_sizes T.event.conservative_size dropped_events (pos 0) in
      let (dropped_checkpoints, kept_checkpoints) = split_off key h.checkpoints in
      (
        record h {
          current_time = add_i64 h.current_time time;
          base_snapshot = promoted h.base_snapshot (last dropped_checkpoints);
          events = kept_events;
          checkpoints = kept_checkpoints;
        },
        subtract_sizes T.conservative_size dropped_checkpoints after_events,
      )

  unfoldable pub apply_event : Deps S E → E → History S E C → Option (History S E C × ℤ)
  apply_event deps event h =
      let event_time = T.event.time event in
      let latest_event_time = last_time h.events in
      do
        applied ←
            deps.apply_event_in_place event h.base_snapshot h.checkpoints h.events
              h.checkpoint_interval
        some (
          record h {
            checkpoints = applied.checkpoints;
            events = applied.events;
            reconciliation =
                notify_late F h.snapshot_id event_time latest_event_time h.reconciliation;
          },
          applied.bytes_delta,
        )

  -- the part of `apply_snapshot` behind the test of the id
  unfoldable pub install : S → History S E C → Option (History S E C × ℤ)
  install snapshot h =
      let snapshot_key : ContimeKey = record { time = T.time snapshot; id = h.snapshot_id } in
      let stale_keys = map (λ e. e.0) (entries (included snapshot_key) unbounded h.checkpoints) in
      do
        kept ← remove_stale T stale_keys h.checkpoints (pos 0)
        let bytes_delta = add_i64 kept.1 (to_i64 (T.conservative_size snapshot))
        let checkpoints = insert snapshot_key snapshot kept.0
        replayed ←
            replay_and_checkpoint T snapshot (excluded snapshot_key) checkpoints h.events
              h.checkpoint_interval
        let latest_event_time = time_or (T.time snapshot) (last_time h.events)
        some (
          record h {
            checkpoints = replayed.0;
            reconciliation =
                F.try_send
                  (record {
                    snapshot_id = h.snapshot_id;
                    from_time = T.time snapshot;
                    to_time = latest_event_time;
                  })
                  h.reconciliation;
          },
          add_i64 bytes_delta replayed.1,
        )

  unfoldable pub apply_snapshot : S → History S E C → Option (History S E C × ℤ)
  apply_snapshot snapshot h =
      if T.id snapshot == h.snapshot_id then install snapshot h else some (h, pos 0)

  unfoldable pub snapshot_at : ℤ → History S E C → Option (S × C)
  snapshot_at time h =
      let query_key : ContimeKey = record { time = time; id = h.snapshot_id } in
      let checkpoint_entry = last (entries unbounded (included query_key) h.checkpoints) in
      let (snapshot, replay_start) = start_from T h.base_snapshot checkpoint_entry in
      do
        replayed ← range replay_start (excluded query_key) h.events
        some (T.set_time time (apply_all T snapshot replayed), h.reconciliation)
