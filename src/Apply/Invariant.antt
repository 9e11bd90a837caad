-- ===== src/Apply/Invariant.antt =====
-- The invariant of a history's maps, and what a branch of `apply_event_in_place` promises.
use contime.Prelude.{ℕ, ◌+◌, ◌≡◌, All, All-imp, All-both, if◌then◌else◌}
use contime.Prelude.Int.{ℤ}
use contime.Key.{ContimeKey, key_ord, from_event}
use contime.Ord.{◌≺◌, is_le, gt_of_lt}
use contime.BTreeMap.{BTreeMap, contains_key, insert}
use contime.BTreeMap.Sorted.{IsSorted, KeysBefore, contains_key-insert_mono}
use contime.BTreeMap.Ranges.{filter-insert}
use contime.BTreeMap.Totals.{total}
use contime.Sizes.{Accounts}
use contime.Traits.{Snapshot}
use contime.Apply.{Applied}
use contime.Apply.Replay.{IsCheckpoint}

module _ {ℓ κ} {S : Type ℓ} {E : Type κ} (T : Snapshot S E) where
  -- both maps are sorted, every event stands at its own key, and every checkpoint is the state
  -- that the events up to its key give
  pub record IsValid (base : S) (checkpoints : BTreeMap ContimeKey S)
      (events : BTreeMap ContimeKey E) : Type (ℓ ⊔ κ) where
    pub events_sorted : IsSorted events
    pub checkpoints_sorted : IsSorted checkpoints
    pub exact : All (IsCheckpoint T base events) checkpoints
    pub keyed : All (λ e. e.0 ≡ from_event T.event e.1) events

  -- the bytes that a history holds beside its base
  abbrev pub tracked : BTreeMap ContimeKey S → BTreeMap ContimeKey E → ℕ
  tracked checkpoints events =
      total T.conservative_size checkpoints + total T.event.conservative_size events

  -- a branch has put its checkpoints right for the new events
  pub record Settles (base : S) (checkpoints : BTreeMap ContimeKey S)
      (events : BTreeMap ContimeKey E) (d : ℤ) (r : Applied S E) : Type (ℓ ⊔ κ) where
    pub same_events : r.events ≡ events
    pub sorted : IsSorted r.checkpoints
    pub settled : All (IsCheckpoint T base events) r.checkpoints
    pub accounts :
        Accounts
          (total T.conservative_size checkpoints)
          d
          (total T.conservative_size r.checkpoints)
          r.bytes_delta

  -- the events with a new one put in, unless its key is taken
  abbrev pub insert_new : E → BTreeMap ContimeKey E → BTreeMap ContimeKey E
  insert_new event events =
      let key = from_event T.event event in
      if contains_key key events then events else insert key event events

  -- a new event leaves the checkpoints before it as they should be
  pub exact-insert :
      (base : S) (k : ContimeKey) (event : E) (events : BTreeMap ContimeKey E)
      (cps : BTreeMap ContimeKey S)
      → IsSorted events
      → KeysBefore k cps
      → All (IsCheckpoint T base events) cps
      → All (IsCheckpoint T base (insert k event events)) cps
  exact-insert base k event events cps s b a =
      All-imp (λ x h. still x h.0 h.1) cps
        (All-both (λ x. x.0 ≺ k) (IsCheckpoint T base events) cps b a)
    where
      still :
          (x : ContimeKey × S)
          → x.0 ≺ k
          → IsCheckpoint T base events x
          → IsCheckpoint T base (insert k event events) x
      still x h c = (
        contains_key-insert_mono x.0 k event events c.0 s,
        rw (filter-insert (λ j. is_le (key_ord.cmp j x.0)) k event events (rw (gt_of_lt x.0 k h)))
            c.1,
      )
