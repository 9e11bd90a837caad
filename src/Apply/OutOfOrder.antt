-- ===== src/Apply/OutOfOrder.antt =====
-- The branch of `apply_event_in_place` for an event with others behind it.
use contime.Prelude.{
  ℕ, suc, ◌≡◌, refl, ap, sym, some, [], ◌∷◌, ◌++◌, All, All-imp, All-filter, All-passes, last,
  arith, Option-cases, inl, inr,
}
use contime.Prelude.Int.{ℤ, pos}
use contime.Prelude.Word.{add_i64, to_u64-add_i64}
use contime.Key.{ContimeKey, key_ord}
use contime.BTreeMap.{BTreeMap, get, insert, entries, excluded, unbounded, in_range}
use contime.BTreeMap.Sorted.{
  IsSorted, KeysBefore, insert-IsSorted, filter-IsSorted, get-append, contains_key-append,
}
use contime.BTreeMap.Ranges.{before, from, upto_at, last_splits}
use contime.BTreeMap.Totals.{total}
use contime.Sizes.{Accounts}
use contime.Traits.{Snapshot}
use contime.Apply.{
  Applied, apply_out_of_order, replay_start, replay_and_checkpoint, replay, start_from, key_of,
}
use contime.Apply.Replay.{
  IsCheckpoint, walk, replay_loop-walk, walk-IsSorted, walk-All, walk-Accounts,
}
use contime.Apply.Stale.{freed, remove_stale_from, remove_stale-Accounts}
use contime.Apply.Start.{last-Covers, last-Precedes}
use contime.Apply.Invariant.{Settles, exact-insert}

module _ {ℓ κ} {S : Type ℓ} {E : Type κ} (T : Snapshot S E) where
  -- the checkpoint whose key was noted is found again, so that no `expect` fails
  pub replay_start-last :
      (base : S) (cps : BTreeMap ContimeKey S)
      → IsSorted cps
      → replay_start T base cps (key_of T (last cps)) ≡ some (start_from T base (last cps))
  unfolding replay_start
  replay_start-last base cps s = elim (Option-cases (last cps)) [
    | inl e ↦ rw e
    | inr ((k, c), e) ↦ rw e (rw (found k c e))
  ]
    where
      found : (k : ContimeKey) (c : S) → last cps ≡ some (k, c) → get k cps ≡ some c
      found k c e =
          let (xs, q) = last_splits cps (k, c) e in rw q (get-append k c xs [] (rw q at s))

  -- the replay from the last of the checkpoints before a key
  abbrev pub rebuilt :
      ContimeKey → S → BTreeMap ContimeKey S → BTreeMap ContimeKey E → ℕ → BTreeMap ContimeKey S × ℤ
  rebuilt k base cps events i =
      let start = start_from T base (last (before k cps)) in
      walk T i (entries start.1 unbounded events) 0 start.0 (before k cps) (pos 0)

  -- on sorted checkpoints and with a positive interval the branch does not panic, and keeps the
  -- checkpoints before the key with those that are rebuilt
  pub apply_out_of_order-walk :
      (k : ContimeKey) (base : S) (cps : BTreeMap ContimeKey S) (events : BTreeMap ContimeKey E)
      (i : ℕ) (d : ℤ)
      → IsSorted cps
      → apply_out_of_order T k base cps events (suc i) d
        ≡ some (record {
          checkpoints = (rebuilt k base cps events i).0;
          events = events;
          bytes_delta = add_i64 (freed T (from k cps) d) (rebuilt k base cps events i).1;
        })
  unfolding apply_out_of_order replay_and_checkpoint
  apply_out_of_order-walk k base cps events i d s =
      let kept = before k cps in
      let start = start_from T base (last kept) in
      rw (remove_stale_from T k cps d s) (
        rw (replay_start-last base kept (filter-IsSorted _ cps s)) (
          rw (replay_loop-walk T i (entries start.1 unbounded events) 0 start.0 kept (pos 0)) refl))

module _ {ℓ κ} {S : Type ℓ} {E : Type κ} (T : Snapshot S E) (base : S)
    (events : BTreeMap ContimeKey E) (s : IsSorted events) where
  pub reached_IsCheckpoint :
      (xs ys : BTreeMap ContimeKey E) (k : ContimeKey) (e : E)
      → xs ++ (k, e) ∷ ys ≡ events
      → IsCheckpoint T base events (k, replay T base (xs ++ (k, e) ∷ []))
  reached_IsCheckpoint xs ys k e w =
      let s' = rw (← w) at s in
      rw (← w) (contains_key-append k e xs ys s', ap (replay T base) (sym (upto_at k e xs ys s')))

  -- the replay from the last of the checkpoints that are kept rebuilds those behind it
  rebuild :
      (i : ℕ) (kept : BTreeMap ContimeKey S)
      → IsSorted kept
      → All (IsCheckpoint T base events) kept
      → let start = start_from T base (last kept) in
        let r = walk T i (entries start.1 unbounded events) 0 start.0 kept (pos 0) in
        IsSorted r.0
        × All (IsCheckpoint T base events) r.0
        × Accounts (total T.conservative_size kept) (pos 0) (total T.conservative_size r.0) r.1
  rebuild i kept t a =
      let start = start_from T base (last kept) in
      let later = entries start.1 unbounded events in
      let c = last-Covers T base events kept s a in
      (
        walk-IsSorted T i later 0 start.0 kept (pos 0) t,
        walk-All T (IsCheckpoint T base events) base events i c.skipped later 0 start.0 kept (pos 0)
            reached_IsCheckpoint c.whole c.reached a,
        walk-Accounts T i later 0 start.0 kept (pos 0) (filter-IsSorted _ events s)
            (last-Precedes T base events kept t),
      )

module _ {ℓ κ} {S : Type ℓ} {E : Type κ} (T : Snapshot S E) where
  -- with a positive interval the branch does not panic, and it settles the checkpoints
  pub apply_out_of_order-Settles :
      (base : S) (k : ContimeKey) (event : E) (events : BTreeMap ContimeKey E)
      (cps : BTreeMap ContimeKey S) (i : ℕ) (d : ℤ)
      → IsSorted events
      → IsSorted cps
      → All (IsCheckpoint T base events) cps
      → (r : Applied S E) × (apply_out_of_order T k base cps (insert k event events) (suc i) d
          ≡ some r)
        × Settles T base cps (insert k event events) d r
  apply_out_of_order-Settles base k event events cps i d s t a =
      let kept = before k cps in
      let all_events = insert k event events in
      let kept_before : KeysBefore k kept =
        All-imp (λ x h. ground arith) kept
          (All-passes (λ x. in_range unbounded (excluded k) x.0) cps) in
      let kept_sorted = filter-IsSorted _ cps t in
      let (sorted, exact, counted) =
        rebuild T base all_events (insert-IsSorted k event events s) i kept kept_sorted (
          exact-insert T base k event events kept s kept_before
            (All-filter (IsCheckpoint T base events) _ cps a)) in
      (
        _,
        apply_out_of_order-walk T k base cps all_events i d t,
        record {
          same_events = refl;
          sorted = sorted;
          settled = exact;
          accounts = omega (
            arith,
            counted,
            remove_stale-Accounts T k cps d t,
            to_u64-add_i64 (freed T (from k cps) d) (rebuilt T k base cps all_events i).1,
          );
        },
      )
