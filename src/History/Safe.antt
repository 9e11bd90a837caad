-- ===== src/History/Safe.antt =====
-- No method of src/history.rs but the query panics on a history whose maps are sorted, whatever
-- its checkpoints hold.
use contime.Prelude.{◌<◌, ◌≡◌, ◌==◌, refl, some, arith, Bool-cases, inl, inr}
use contime.Prelude.Int.{ℤ, pos}
use contime.Key.{key_ord}
use contime.BTreeMap.Sorted.{filter-IsSorted}
use contime.Traits.{Snapshot}
use contime.Channel.{Channel}
use contime.Apply.Safe.{apply_event_in_place_safe}
use contime.Apply.Safe
use contime.History.{
  History, def_deps, notify_late, last_time, new, advance, apply_event, apply_snapshot,
}
use contime.History.Install.{takes_snapshot}

module _ {ℓ κ μ} {S : Type ℓ} {E : Type κ} {C : Type μ} (T : Snapshot S E) (F : Channel C) where
  pub record IsSound (h : History S E C) : Type 0 where
    pub maps : Safe.IsSound T h.checkpoints h.events
    pub interval : 0 < h.checkpoint_interval

  pub new-IsSound : (s : S) (now delta : ℤ) → IsSound (new T F s now delta).0
  unfolding new
  new-IsSound s now delta = record {
    maps = record { events_sorted = tt; checkpoints_sorted = tt };
    interval = omega arith;
  }

  pub id-new : (s : S) (now delta : ℤ) → ((new T F s now delta).0).snapshot_id ≡ T.id s
  unfolding new
  id-new s now delta = refl

  pub advance-IsSound : (time : ℤ) (h : History S E C) → IsSound h → IsSound (advance T F time h).0
  unfolding advance
  advance-IsSound time h v = record {
    maps = record {
      events_sorted = filter-IsSorted _ h.events v.maps.events_sorted;
      checkpoints_sorted = filter-IsSorted _ h.checkpoints v.maps.checkpoints_sorted;
    };
    interval = v.interval;
  }

  pub id-advance :
      (time : ℤ) (h : History S E C) → ((advance T F time h).0).snapshot_id ≡ h.snapshot_id
  unfolding advance
  id-advance time h = refl

  pub apply_event_safe :
      (e : E) (h : History S E C)
      → IsSound h
      → (h' : History S E C) × (d : ℤ) × (apply_event T F (def_deps T) e h ≡ some (h', d))
        × IsSound h'
        × (h'.snapshot_id ≡ h.snapshot_id)
  unfolding apply_event
  apply_event_safe e h v =
      let (r, q, w) =
        apply_event_in_place_safe T e h.base_snapshot h.checkpoints h.events h.checkpoint_interval
          v.interval v.maps in
      (
        record h {
          checkpoints = r.checkpoints;
          events = r.events;
          reconciliation =
              notify_late F h.snapshot_id (T.event.time e) (last_time h.events) h.reconciliation;
        },
        r.bytes_delta,
        rw q refl,
        record { maps = w; interval = v.interval },
        refl,
      )

  pub apply_snapshot_safe :
      (s : S) (h : History S E C)
      → IsSound h
      → (h' : History S E C) × (d : ℤ) × (apply_snapshot T F s h ≡ some (h', d))
        × IsSound h'
        × (h'.snapshot_id ≡ h.snapshot_id)
  unfolding apply_snapshot
  apply_snapshot_safe s h v = elim (Bool-cases (T.id s == h.snapshot_id)) [
    | inl same ↦
        let (h', d, e, w) = takes_snapshot T F s h v.interval v.maps (ground arith) in
        (
          h',
          d,
          e,
          record {
            maps = record {
              events_sorted = rw w.same_events v.maps.events_sorted;
              checkpoints_sorted = w.sorted;
            };
            interval = rw w.same_interval v.interval;
          },
          w.same_id,
        )
    | inr other ↦ (h, pos 0, rw other refl, v, refl)
  ]
