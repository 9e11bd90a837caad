-- ===== src/History/Install.antt =====
-- `apply_snapshot`: what an authoritative snapshot makes of a history.
use contime.Prelude.{
  ℕ, suc, ◌+◌, ◌-◌, ◌<◌, ◌≡◌, ◌≢◌, refl, sym, ap, ◌∙◌, true, some, [], ◌∷◌, ◌++◌, append-nil,
  append_assoc, All, All-imp, All-append, All-passes, arith, ◌==◌,
}
use contime.Prelude.Int.{ℤ, pos}
use contime.Prelude.Word.{to_i64, add_i64, to_u64-add_i64, to_u64-to_i64}
use contime.Key.{ContimeKey, key_ord}
use contime.Ord.{◌≺◌}
use contime.BTreeMap.{BTreeMap, excluded, unbounded, insert, in_range}
use contime.BTreeMap.Sorted.{
  IsSorted, KeysBefore, Precedes, filter-IsSorted, insert-IsSorted, insert_after,
  not_contains_before,
}
use contime.BTreeMap.Ranges.{before, from, behind}
use contime.BTreeMap.Totals.{total, total-insert}
use contime.Sizes.{Accounts}
use contime.Traits.{Snapshot}
use contime.Channel.{Channel}
use contime.Apply.{replay_and_checkpoint, replay}
use contime.Apply.Replay.{
  IsCheckpoint, walk, replay_loop-walk, walk-IsSorted, walk-All, walk-Accounts, walk-append,
}
use contime.Apply.Stale.{freed, remove_stale_from, remove_stale-Accounts}
use contime.Apply.Safe.{IsSound}
use contime.Apply.OutOfOrder.{reached_IsCheckpoint}
use contime.History.{History, last_time, time_or, install, apply_snapshot}
use contime.History.Valid.{IsValid, retained}

module _ {ℓ κ μ} {S : Type ℓ} {E : Type κ} {C : Type μ} (T : Snapshot S E) (F : Channel C) where
  -- the key of the checkpoint that the snapshot becomes
  abbrev pub snapshot_key : S → History S E C → ContimeKey
  snapshot_key snapshot h = record { time = T.time snapshot; id = h.snapshot_id }

  -- what `apply_snapshot` makes of a history whose id is the snapshot's
  pub record TakesSnapshot (snapshot : S) (h h' : History S E C) (d : ℤ) : Type (ℓ ⊔ κ ⊔ μ) where
    pub same_events : h'.events ≡ h.events
    pub same_base : h'.base_snapshot ≡ h.base_snapshot
    pub same_id : h'.snapshot_id ≡ h.snapshot_id
    pub same_interval : h'.checkpoint_interval ≡ h.checkpoint_interval
    -- the checkpoints before the snapshot stay, and those behind it follow from it
    pub rebuilt : BTreeMap ContimeKey S
    pub checkpoints :
        h'.checkpoints
        ≡ before (snapshot_key snapshot h) h.checkpoints
          ++ (snapshot_key snapshot h, snapshot) ∷ rebuilt
    pub sorted : IsSorted h'.checkpoints
    pub exact : All (IsCheckpoint T snapshot (behind (snapshot_key snapshot h) h.events)) rebuilt
    pub accounts : Accounts (retained T F h) (pos 0) (retained T F h') d
    pub notified :
        h'.reconciliation
        ≡ F.try_send
            (record {
              snapshot_id = h.snapshot_id;
              from_time = T.time snapshot;
              to_time = time_or (T.time snapshot) (last_time h.events);
            })
            h.reconciliation

  installed :
      (snapshot : S) (h : History S E C) (i : ℕ)
      → h.checkpoint_interval ≡ suc i
      → IsSound T h.checkpoints h.events
      → (h' : History S E C) × (d : ℤ) × (install T F snapshot h ≡ some (h', d))
        × TakesSnapshot snapshot h h' d
  unfolding install replay_and_checkpoint
  installed snapshot h i e v = (
    record h { checkpoints = result.0; reconciliation = _ },
    add_i64
        (add_i64 (freed T (from k h.checkpoints) (pos 0)) (to_i64 (T.conservative_size snapshot)))
        result.1,
    rw (remove_stale_from T k h.checkpoints (pos 0) v.checkpoints_sorted)
        (rw e (rw (replay_loop-walk T i later 0 snapshot with_snapshot (pos 0)) refl)),
    record {
      same_events = refl;
      same_base = refl;
      same_id = refl;
      same_interval = refl;
      rebuilt = fresh;
      checkpoints = split;
      sorted =
          walk-IsSorted T i later 0 snapshot with_snapshot (pos 0)
            (insert-IsSorted k snapshot lo kept_sorted);
      exact =
          walk-All T (IsCheckpoint T snapshot later) snapshot later i [] later 0 snapshot [] (pos 0)
            (reached_IsCheckpoint T snapshot later later_sorted) refl (unfold replay in refl) tt;
      accounts = counted;
      notified = refl;
    },
  )
    where
      k : ContimeKey
      k = snapshot_key snapshot h

      lo : BTreeMap ContimeKey S
      lo = before k h.checkpoints

      later : BTreeMap ContimeKey E
      later = behind k h.events

      lo_before : KeysBefore k lo
      lo_before =
          All-imp (λ x p. ground arith) lo
            (All-passes (λ x. in_range unbounded (excluded k) x.0) h.checkpoints)

      with_snapshot : BTreeMap ContimeKey S
      with_snapshot = insert k snapshot lo

      at_end : with_snapshot ≡ lo ++ (k, snapshot) ∷ []
      at_end = insert_after k snapshot lo lo_before

      k_before : All (λ y. k ≺ y.0) later
      k_before =
          All-imp (λ y p. ground arith) later
            (All-passes (λ y. in_range (excluded k) unbounded y.0) h.events)

      precedes : Precedes (lo ++ (k, snapshot) ∷ []) later
      precedes =
          All-append (λ x. All (λ y. x.0 ≺ y.0) later) lo ((k, snapshot) ∷ [])
            (All-imp (λ x p. All-imp (λ y q. key_ord.lt_trans x.0 k y.0 p q) later k_before) lo
              lo_before)
            (k_before, tt)

      result : BTreeMap ContimeKey S × ℤ
      result = walk T i later 0 snapshot with_snapshot (pos 0)

      kept_sorted : IsSorted lo
      kept_sorted = filter-IsSorted _ h.checkpoints v.checkpoints_sorted

      later_sorted : IsSorted later
      later_sorted = filter-IsSorted _ h.events v.events_sorted

      fresh : BTreeMap ContimeKey S
      fresh = (walk T i later 0 snapshot [] (pos 0)).0

      split : result.0 ≡ lo ++ (k, snapshot) ∷ fresh
      split =
          ap (λ m. (walk T i later 0 snapshot m (pos 0)).0)
            (at_end ∙ sym (append-nil (lo ++ (k, snapshot) ∷ [])))
          ∙ walk-append T i later 0 snapshot (lo ++ (k, snapshot) ∷ []) [] (pos 0) precedes
          ∙ append_assoc lo ((k, snapshot) ∷ []) fresh

      counted :
          Accounts
            (retained T F h)
            (pos 0)
            (total T.conservative_size result.0 + total T.event.conservative_size h.events)
            (add_i64
              (add_i64
                (freed T (from k h.checkpoints) (pos 0))
                (to_i64 (T.conservative_size snapshot)))
              result.1)
      counted =
          let size = T.conservative_size in
          let f = freed T (from k h.checkpoints) (pos 0) in
          omega (
            arith,
            remove_stale-Accounts T k h.checkpoints (pos 0) v.checkpoints_sorted,
            walk-Accounts T i later 0 snapshot with_snapshot (pos 0) later_sorted
                (rw at_end precedes),
            total-insert size k snapshot lo (not_contains_before k lo lo_before),
            to_u64-add_i64 (add_i64 f (to_i64 (size snapshot))) result.1,
            to_u64-add_i64 f (to_i64 (size snapshot)),
            to_u64-to_i64 (size snapshot),
          )

  -- the same on sorted maps, whatever the checkpoints hold
  pub takes_snapshot :
      (snapshot : S) (h : History S E C)
      → 0 < h.checkpoint_interval
      → IsSound T h.checkpoints h.events
      → T.id snapshot ≡ h.snapshot_id
      → (h' : History S E C) × (d : ℤ) × (apply_snapshot T F snapshot h ≡ some (h', d))
        × TakesSnapshot snapshot h h' d
  unfolding apply_snapshot
  takes_snapshot snapshot h positive v same =
      let e : h.checkpoint_interval ≡ suc (h.checkpoint_interval - 1) = omega (arith, positive) in
      let (h', d, r, w) = installed snapshot h (h.checkpoint_interval - 1) e v in
      let test : (T.id snapshot == h.snapshot_id) ≡ true = ground arith in (h', d, rw test r, w)

  -- On a valid history a snapshot with the history's id does not panic: it becomes a checkpoint,
  -- the checkpoints before it stay, all behind it are replaced by states that follow from it,
  -- events, base and id stay, the result accounts for the change of all sizes, and a
  -- notification about the time from the snapshot to the latest event goes out.
  pub apply_snapshot_total :
      (snapshot : S) (h : History S E C)
      → IsValid T F h
      → T.id snapshot ≡ h.snapshot_id
      → (h' : History S E C) × (d : ℤ) × (apply_snapshot T F snapshot h ≡ some (h', d))
        × TakesSnapshot snapshot h h' d
  apply_snapshot_total snapshot h v = takes_snapshot snapshot h v.interval (record {
    events_sorted = v.maps.events_sorted;
    checkpoints_sorted = v.maps.checkpoints_sorted;
  })

  -- A snapshot with another id than the history's changes nothing.
  pub apply_snapshot_other :
      (snapshot : S) (h : History S E C)
      → T.id snapshot ≢ h.snapshot_id
      → apply_snapshot T F snapshot h ≡ some (h, pos 0)
  unfolding apply_snapshot
  apply_snapshot_other snapshot h other = ground arith
