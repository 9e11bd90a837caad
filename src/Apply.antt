-- ===== src/Apply.antt =====
-- src/apply.rs: putting one event into a history, and replaying events into checkpoints. A map
-- that the code changes in place is returned; `none` is a panic.
pub mod Replay
pub mod Stale
pub mod Start
pub mod Invariant
pub mod Branches
pub mod Latest
pub mod OutOfOrder
pub mod Total
pub mod Safe
pub mod Late
pub mod Behind
pub mod Layers
pub mod Values
use contime.Prelude.{
  ℕ, ◌+◌, Bool, true, false, Option, none, some, List, [], ◌∷◌, last, length, is_multiple, ◌>>=◌,
  if◌then◌else◌, map,
}
use contime.Prelude.Int.{ℤ, pos}
use contime.Prelude.Word.{to_i64, add_i64, sub_i64}
use contime.Key.{ContimeKey, key_ord, from_event}
use contime.BTreeMap.{
  BTreeMap, Bound, excluded, included, unbounded, get, contains_key, insert, remove, entries,
}
use contime.Traits.{Snapshot}

-- the maps after `apply_event_in_place`, and the number that it returns
pub record Applied {ℓ κ} (S : Type ℓ) (E : Type κ) : Type (ℓ ⊔ κ) where
  pub checkpoints : BTreeMap ContimeKey S
  pub events : BTreeMap ContimeKey E
  pub bytes_delta : ℤ

-- `iter.next().is_none()`
abbrev pub is_end {ℓ} : {A : Type ℓ} → List A → Bool
is_end [] = true
is_end (x ∷ xs) = false

module _ {ℓ κ} {S : Type ℓ} {E : Type κ} (T : Snapshot S E) where
  -- `event.apply_to(&mut snapshot); snapshot.set_time(event.time());`
  unfoldable pub step : S → E → S
  step snapshot event = T.set_time (T.event.time event) (T.apply.apply_to event snapshot)

  -- the rounds of the loop of `replay_and_checkpoint`
  unfoldable pub replay_loop :
      ℕ
      → BTreeMap ContimeKey E
      → ℕ
      → S
      → BTreeMap ContimeKey S
      → ℤ
      → Option (BTreeMap ContimeKey S × ℤ)
  replay_loop checkpoint_interval [] count snapshot checkpoints bytes_delta =
      some (checkpoints, bytes_delta)
  replay_loop checkpoint_interval ((key, event) ∷ rest) count snapshot checkpoints bytes_delta =
      let snapshot' = step snapshot event in
      do
        due ← is_multiple (count + 1) checkpoint_interval
        replay_loop checkpoint_interval rest (count + 1) snapshot'
            (if due then insert key snapshot' checkpoints else checkpoints)
            (if due
              then add_i64 bytes_delta (to_i64 (T.conservative_size snapshot'))
              else bytes_delta)

  unfoldable pub replay_and_checkpoint :
      S
      → Bound ContimeKey
      → BTreeMap ContimeKey S
      → BTreeMap ContimeKey E
      → ℕ
      → Option (BTreeMap ContimeKey S × ℤ)
  replay_and_checkpoint start_snapshot start_bound checkpoints events checkpoint_interval =
      replay_loop checkpoint_interval (entries start_bound unbounded events) 0 start_snapshot
        checkpoints (pos 0)

  -- the checkpoint from which a replay starts, or the base, and the bound behind it
  abbrev pub start_from : S → Option (ContimeKey × S) → S × Bound ContimeKey
  start_from base_snapshot none = (base_snapshot, unbounded)
  start_from base_snapshot (some (key, checkpoint)) = (checkpoint, excluded key)

  -- `for (_k, ev) in ... { ev.apply_to(&mut snap); snap.set_time(ev.time()); }`
  unfoldable pub replay : S → BTreeMap ContimeKey E → S
  replay snap [] = snap
  replay snap ((key, event) ∷ rest) = replay (step snap event) rest

  -- the branch for the latest event
  unfoldable pub apply_latest :
      ContimeKey → S → BTreeMap ContimeKey S → BTreeMap ContimeKey E → ℕ → ℤ → Option (Applied S E)
  apply_latest event_key base_snapshot checkpoints events checkpoint_interval bytes_delta =
      let (snapshot, start_bound) = start_from base_snapshot (last checkpoints) in
      let later = entries start_bound unbounded events in
      do
        due ← is_multiple (length later) checkpoint_interval
        let snap = replay snapshot later
        some (record {
          checkpoints = if due then insert event_key snap checkpoints else checkpoints;
          events = events;
          bytes_delta =
              if due then add_i64 bytes_delta (to_i64 (T.conservative_size snap)) else bytes_delta;
        })

  -- the loop that removes the stale checkpoints; `expect` panics where a key is missing
  unfoldable pub remove_stale :
      List ContimeKey → BTreeMap ContimeKey S → ℤ → Option (BTreeMap ContimeKey S × ℤ)
  remove_stale [] checkpoints bytes_delta = some (checkpoints, bytes_delta)
  remove_stale (key ∷ stale_keys) checkpoints bytes_delta = do
    removed ← get key checkpoints
    remove_stale stale_keys (remove key checkpoints)
        (sub_i64 bytes_delta (to_i64 (T.conservative_size removed)))

  -- `match &replay_start_key`
  unfoldable pub replay_start :
      S → BTreeMap ContimeKey S → Option ContimeKey → Option (S × Bound ContimeKey)
  replay_start base_snapshot checkpoints none = some (base_snapshot, unbounded)
  replay_start base_snapshot checkpoints (some key) = do
    checkpoint ← get key checkpoints
    some (checkpoint, excluded key)

  abbrev pub key_of {μ} : {V : Type μ} → Option (ContimeKey × V) → Option ContimeKey
  key_of none = none
  key_of (some (key, value)) = some key

  -- the branch for an event out of order
  unfoldable pub apply_out_of_order :
      ContimeKey → S → BTreeMap ContimeKey S → BTreeMap ContimeKey E → ℕ → ℤ → Option (Applied S E)
  apply_out_of_order event_key base_snapshot checkpoints events checkpoint_interval bytes_delta =
      let replay_start_key = key_of (last (entries unbounded (excluded event_key) checkpoints)) in
      let stale_keys = map (λ e. e.0) (entries (included event_key) unbounded checkpoints) in
      do
        kept ← remove_stale stale_keys checkpoints bytes_delta
        start ← replay_start base_snapshot kept.0 replay_start_key
        replayed ← replay_and_checkpoint start.0 start.1 kept.0 events checkpoint_interval
        some (record {
          checkpoints = replayed.0;
          events = events;
          bytes_delta = add_i64 kept.1 replayed.1;
        })

  unfoldable pub apply_event_in_place :
      E → S → BTreeMap ContimeKey S → BTreeMap ContimeKey E → ℕ → Option (Applied S E)
  apply_event_in_place new_event base_snapshot checkpoints events checkpoint_interval =
      let event_key = from_event T.event new_event in
      let bytes_delta = to_i64 (T.event.conservative_size new_event) in
      let events' = insert event_key new_event events in
      let is_latest = is_end (entries (excluded event_key) unbounded events') in
      if contains_key event_key events
      then some (record { checkpoints = checkpoints; events = events; bytes_delta = pos 0 })
      else if is_latest
      then apply_latest event_key base_snapshot checkpoints events' checkpoint_interval bytes_delta
      else apply_out_of_order event_key base_snapshot checkpoints events' checkpoint_interval
          bytes_delta
