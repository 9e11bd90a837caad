-- ===== src/Apply/Latest.antt =====
-- The branch of `apply_event_in_place` for an event behind all others.
use contime.Prelude.{
  ℕ, suc, ◌%◌, ◌==◌, ◌≡◌, refl, sym, ap, ◌∙◌, Bool, true, false, some, List, [], ◌∷◌, ◌++◌,
  append-nil, All, All-imp, last, length,
}
use contime.Prelude.Int.{ℤ}
use contime.Key.{ContimeKey, key_ord}
use contime.Ord.{◌≺◌}
use contime.BTreeMap.{BTreeMap, Bound, contains_key, insert, entries, unbounded}
use contime.BTreeMap.Sorted.{
  IsSorted, KeysBefore, insert-IsSorted, all_before, not_contains_before, contains_key-insert,
  All-contains,
}
use contime.BTreeMap.Ranges.{upto, behind, upto-behind, filter-insert}
use contime.Traits.{Snapshot}
use contime.Apply.{Applied, is_end, apply_latest, replay, start_from}
use contime.Apply.Replay.{
  IsCheckpoint, replay-append, insert_if-Accounts, insert_if-All, insert_if-IsSorted,
}
use contime.Apply.Start.{Covers, last-Covers}
use contime.Apply.Invariant.{Settles, exact-insert}

pub end_nil {ℓ} : {A : Type ℓ} (xs : List A) → is_end xs ≡ true → xs ≡ []
end_nil [] h = refl
end_nil (x ∷ xs) h = cc

module _ {ℓ κ} {S : Type ℓ} {E : Type κ} (T : Snapshot S E) where
  -- a replay from the last checkpoint over the rest is the replay of all events
  pub replay_resumed :
      (base : S) (events : BTreeMap ContimeKey E) (start : S × _)
      → Covers T base events start
      → replay T start.0 (entries start.1 unbounded events) ≡ replay T base events
  replay_resumed base events start c = rw c.reached (
      sym (replay-append T base c.skipped (entries start.1 unbounded events))
      ∙ ap (replay T base) c.whole)

module _ {ℓ κ} {S : Type ℓ} {E : Type κ} (T : Snapshot S E) (base : S) (k : ContimeKey) (event : E)
    (events : BTreeMap ContimeKey E) (cps : BTreeMap ContimeKey S)
    (new : contains_key k events ≡ false)
    (latest : is_end (behind k (insert k event events)) ≡ true) (s : IsSorted events)
    (a : All (IsCheckpoint T base events) cps) where
  nothing_behind : behind k (insert k event events) ≡ []
  nothing_behind = end_nil _ latest

  events_before : KeysBefore k events
  events_before =
      all_before k events new
        (sym (filter-insert _ k event events (rw (key_ord.cmp_self k))) ∙ nothing_behind)

  checkpoints_before : KeysBefore k cps
  checkpoints_before = All-imp (λ x h. All-contains (λ j. j ≺ k) x.0 events events_before h.0) cps a

  whole_upto : upto k (insert k event events) ≡ insert k event events
  whole_upto =
      sym (append-nil _)
      ∙ ap (λ r. upto k (insert k event events) ++ r) (sym nothing_behind)
      ∙ upto-behind k _ (insert-IsSorted k event events s)

  -- with a positive interval the branch does not panic, and it settles the checkpoints
  pub apply_latest-Settles :
      (i : ℕ) (d : ℤ)
      → IsSorted cps
      → (r : Applied S E) × (apply_latest T k base cps (insert k event events) (suc i) d ≡ some r)
        × Settles T base cps (insert k event events) d r
  unfolding apply_latest
  apply_latest-Settles i d t = (
    _,
    refl,
    record {
      same_events = refl;
      sorted = insert_if-IsSorted T due k snap cps t;
      settled =
          insert_if-All T (IsCheckpoint T base all_events) due k snap cps
            (contains_key-insert k event events, snap_exact) still_exact;
      accounts =
          insert_if-Accounts T due k snap cps d (not_contains_before k cps checkpoints_before);
    },
  )
    where
      all_events : BTreeMap ContimeKey E
      all_events = insert k event events

      start : S × Bound ContimeKey
      start = start_from T base (last cps)

      later : BTreeMap ContimeKey E
      later = entries start.1 unbounded all_events

      due : Bool
      due = length later % suc i == 0

      snap : S
      snap = replay T start.0 later

      still_exact : All (IsCheckpoint T base all_events) cps
      still_exact = exact-insert T base k event events cps s checkpoints_before a

      snap_exact : snap ≡ replay T base (upto k all_events)
      snap_exact =
          replay_resumed T base all_events start
            (last-Covers T base all_events cps (insert-IsSorted k event events s) still_exact)
          ∙ ap (replay T base) (sym whole_upto)
