-- ===== src/History/Valid.antt =====
-- The invariant of a history, and `new` and `apply_event` under it.
use contime.Prelude.{ℕ, ◌<◌, ◌≡◌, refl, some, arith}
use contime.Prelude.Int.{ℤ, pos}
use contime.Traits.{Snapshot}
use contime.Sizes.{Accounts}
use contime.Channel.{Channel}
use contime.Apply.Invariant.{tracked, insert_new}
use contime.Apply.Invariant
use contime.Apply.Total.{apply_event_in_place_total}
use contime.History.{History, def_deps, new, last_time, notify_late, apply_event}

module _ {ℓ κ μ} {S : Type ℓ} {E : Type κ} {C : Type μ} (T : Snapshot S E) (F : Channel C) where
  -- the maps are valid for the base, and checkpoints have a positive distance
  pub record IsValid (h : History S E C) : Type (ℓ ⊔ κ) where
    pub maps : Invariant.IsValid T h.base_snapshot h.checkpoints h.events
    pub interval : 0 < h.checkpoint_interval

  -- the bytes of a history's checkpoints and events
  abbrev pub retained : History S E C → ℕ
  retained h = tracked T h.checkpoints h.events

  -- A new history is valid and holds no event.
  pub new-IsValid : (snapshot : S) (now delta : ℤ) → IsValid (new T F snapshot now delta).0
  unfolding new
  new-IsValid snapshot now delta = record {
    maps = record { events_sorted = tt; checkpoints_sorted = tt; exact = tt; keyed = tt };
    interval = omega arith;
  }

  -- what `apply_event` makes of a history
  pub record TakesEvent (event : E) (h h' : History S E C) (d : ℤ) : Type (ℓ ⊔ κ ⊔ μ) where
    pub inserted : h'.events ≡ insert_new T event h.events
    pub same_base : h'.base_snapshot ≡ h.base_snapshot
    pub same_id : h'.snapshot_id ≡ h.snapshot_id
    pub valid : IsValid h'
    pub accounts : Accounts (retained h) (pos 0) (retained h') d
    pub notified :
        h'.reconciliation
        ≡ notify_late F h.snapshot_id (T.event.time event) (last_time h.events) h.reconciliation

  -- On a valid history `apply_event` does not panic. The event is put in unless its key is taken,
  -- the base and the id stay, the new history is valid, the result accounts for the change of
  -- all sizes, and a notification goes out as `notify_late` says.
  pub apply_event_total :
      (event : E) (h : History S E C)
      → IsValid h
      → (h' : History S E C) × (d : ℤ) × (apply_event T F (def_deps T) event h ≡ some (h', d))
        × TakesEvent event h h' d
  unfolding apply_event
  apply_event_total event h v =
      let (r, e, w) =
        apply_event_in_place_total T event h.base_snapshot h.checkpoints h.events
          h.checkpoint_interval v.interval v.maps in
      (
        record h {
          checkpoints = r.checkpoints;
          events = r.events;
          reconciliation =
              notify_late F h.snapshot_id (T.event.time event) (last_time h.events)
                h.reconciliation;
        },
        r.bytes_delta,
        rw e refl,
        record {
          inserted = w.inserted;
          same_base = refl;
          same_id = refl;
          valid = record { maps = w.valid; interval = v.interval };
          accounts = w.accounts;
          notified = refl;
        },
      )
