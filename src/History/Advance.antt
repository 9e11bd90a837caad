-- ===== src/History/Advance.antt =====
-- `advance`: what pruning keeps, and what it forgets.
use contime.Prelude.{
  ◌≡◌, refl, sym, ap, ◌∙◌, true, false, Option, none, some, [], ◌++◌, append-nil, All-imp, All-both,
  All-filter, All-passes, last, last-All, arith,
}
use contime.Prelude.Int.{ℤ}
use contime.Key.{ContimeKey, key_ord, from_event}
use contime.Ord.{◌≺◌, is_le}
use contime.BTreeMap.{BTreeMap, included, excluded, unbounded, contains_key, entries, in_range}
use contime.BTreeMap.Sorted.{IsSorted, filter-IsSorted}
use contime.BTreeMap.Ranges.{
  upto, before, from, before-entries, upto-before, contains_key-filter, not_contains_filter,
}
use contime.Traits.{Snapshot, SetsTime, IgnoresTime}
use contime.Channel.{Channel}
use contime.Apply.{replay, start_from}
use contime.Apply.Replay.{IsCheckpoint, replay-append}
use contime.History.{History, promoted, drop_key, advance, apply_all, snapshot_at}
use contime.History.Valid.{IsValid}
use contime.History.Query.{query_key, state_at, snapshot_at_exact, apply_all-replay}

module _ {ℓ κ μ} {S : Type ℓ} {E : Type κ} {C : Type μ} (T : Snapshot S E) (F : Channel C) where
  -- every event that is dropped is held by the last checkpoint that is dropped
  abbrev pub IsCovered : ℤ → History S E C → Type κ
  IsCovered time h =
      let k = drop_key T F time h in
      entries (start_from T h.base_snapshot (last (before k h.checkpoints))).1 (excluded k) h.events
      ≡ []

  promoted-replay :
      (base : S) (k : ContimeKey) (events : BTreeMap ContimeKey E) (found : Option (ContimeKey × S))
      → IsSorted events
      → ((e : ContimeKey × S) → found ≡ some e → IsCheckpoint T base events e × (e.0 ≺ k))
      → entries (start_from T base found).1 (excluded k) events ≡ []
      → promoted base found ≡ replay T base (before k events)
  unfolding replay
  promoted-replay base k events none s h gap = rw gap
  promoted-replay base k events (some (j, c)) s h gap =
      let (exact, earlier) = h (j, c) refl in
      exact.1
      ∙ ap (replay T base) (
          sym (append-nil (upto j events))
          ∙ ap (λ r. upto j events ++ r) (sym gap)
          ∙ upto-before j k events s earlier)

  -- the new base is the old one with the dropped events applied
  new_base :
      (time : ℤ) (h : History S E C)
      → IsValid T F h
      → IsCovered time h
      → (advance T F time h).0.base_snapshot
        ≡ replay T h.base_snapshot (before (drop_key T F time h) h.events)
  unfolding advance
  new_base time h v gap =
      let k = drop_key T F time h in
      promoted-replay h.base_snapshot k h.events (last (before k h.checkpoints))
        v.maps.events_sorted
        (λ e q. (
          last-All (IsCheckpoint T h.base_snapshot h.events) (before k h.checkpoints) e q
              (All-filter (IsCheckpoint T h.base_snapshot h.events) _ h.checkpoints v.maps.exact),
          last-All (λ x. x.0 ≺ k) (before k h.checkpoints) e q
              (All-imp (λ x p. ground arith) (before k h.checkpoints)
                (All-passes (λ x. in_range unbounded (excluded k) x.0) h.checkpoints)),
        ))
        gap

  -- a checkpoint that is kept is the state of the events that are kept, on the new base
  kept_IsCheckpoint :
      (base base' : S) (k : ContimeKey) (events : BTreeMap ContimeKey E) (x : ContimeKey × S)
      → IsSorted events
      → base' ≡ replay T base (before k events)
      → is_le (key_ord.cmp k x.0) ≡ true
      → IsCheckpoint T base events x
      → IsCheckpoint T base' (from k events) x
  kept_IsCheckpoint base base' k events x s e later (held, exact) = (
    contains_key-filter (in_range (included k) unbounded) x.0 events (rw later) held,
    exact
        ∙ ap (replay T base) (
            sym (
              before-entries k (included x.0) events s
                (λ y p. ground (arith, key_ord.lt_trans y k x.0, key_ord.eq_of_cmp k x.0))))
        ∙ replay-append T base (before k events) (upto x.0 (from k events))
        ∙ ap (λ b. replay T b (upto x.0 (from k events))) (sym e),
  )

  -- `advance` keeps a valid history valid if the last dropped checkpoint covers the dropped events.
  pub advance-IsValid :
      (time : ℤ) (h : History S E C)
      → IsValid T F h
      → IsCovered time h
      → IsValid T F (advance T F time h).0
  unfolding advance
  advance-IsValid time h v gap =
      let k = drop_key T F time h in
      record {
        maps = record {
          events_sorted = filter-IsSorted _ h.events v.maps.events_sorted;
          checkpoints_sorted = filter-IsSorted _ h.checkpoints v.maps.checkpoints_sorted;
          exact =
              All-imp
                (λ x p.
                  kept_IsCheckpoint h.base_snapshot _ k h.events x v.maps.events_sorted
                    (new_base time h v gap) (ground (arith, p.0)) p.1)
                (from k h.checkpoints)
                (All-both _ _ (from k h.checkpoints)
                  (All-passes (λ x. in_range (included k) unbounded x.0) h.checkpoints)
                  (All-filter (IsCheckpoint T h.base_snapshot h.events) _ h.checkpoints
                    v.maps.exact));
          keyed = All-filter (λ e. e.0 ≡ from_event T.event e.1) _ h.events v.maps.keyed;
        };
        interval = v.interval;
      }

  -- Where `set_time` sets only the time and the effect of an event ignores it: on a valid history
  -- whose last dropped checkpoint covers the dropped events, a query at or behind the horizon
  -- returns after `advance` what it returned before, if no event has the key of the query.
  pub advance_keeps_queries :
      SetsTime T
      → IgnoresTime T
      → (time t : ℤ) (h : History S E C) → IsValid T F h
      → IsCovered time h
      → is_le (key_ord.cmp (drop_key T F time h) (query_key t h.snapshot_id)) ≡ true
      → contains_key (query_key t h.snapshot_id) h.events ≡ false
      → snapshot_at T F t (advance T F time h).0 ≡ snapshot_at T F t h
  unfolding advance state_at
  advance_keeps_queries sets ignores time t h v gap later free =
      let k = drop_key T F time h in
      let q = query_key t h.snapshot_id in
      snapshot_at_exact T sets ignores F t (advance T F time h).0 (advance-IsValid time h v gap)
        (not_contains_filter (in_range (included k) unbounded) q h.events v.maps.events_sorted free)
      ∙ ap (λ s. some (s, h.reconciliation))
          (ap (λ b. T.set_time t (apply_all T b (before q (from k h.events))))
              (new_base time h v gap)
            ∙ apply_all-replay T sets ignores t h.base_snapshot (before k h.events)
                (before q (from k h.events))
            ∙ ap (λ m. T.set_time t (apply_all T h.base_snapshot m))
                (before-entries k (excluded q) h.events v.maps.events_sorted
                  (λ y p. ground (arith, key_ord.lt_trans y k q, key_ord.eq_of_cmp k q))))
      ∙ sym (snapshot_at_exact T sets ignores F t h v free)

  -- Where `set_time` sets only the time and the effect of an event ignores it: a valid history
  -- without checkpoints forgets the events before the horizon. After `advance` a query whose key
  -- no event has returns the old base with only the events from the horizon on applied.
  pub advance_forgets :
      SetsTime T
      → IgnoresTime T
      → (time t : ℤ) (h : History S E C) → IsValid T F h
      → h.checkpoints ≡ []
      → contains_key (query_key t h.snapshot_id) h.events ≡ false
      → snapshot_at T F t (advance T F time h).0
        ≡ some (
          state_at T h.base_snapshot (from (drop_key T F time h) h.events) h.snapshot_id t,
          h.reconciliation,
        )
  unfolding advance
  advance_forgets sets ignores time t h v empty free =
      let k = drop_key T F time h in
      snapshot_at_exact T sets ignores F t (advance T F time h).0
        (record {
          maps = record {
            events_sorted = filter-IsSorted _ h.events v.maps.events_sorted;
            checkpoints_sorted = filter-IsSorted _ h.checkpoints v.maps.checkpoints_sorted;
            exact = rw empty tt;
            keyed = All-filter (λ e. e.0 ≡ from_event T.event e.1) _ h.events v.maps.keyed;
          };
          interval = v.interval;
        })
        (not_contains_filter (in_range (included k) unbounded) _ h.events v.maps.events_sorted free)
      ∙ ap (λ b. some (state_at T b (from k h.events) h.snapshot_id t, h.reconciliation))
          (same_base h.base_snapshot h.checkpoints k empty)
    where
      same_base :
          (base : S) (cps : BTreeMap ContimeKey S) (k : ContimeKey)
          → cps ≡ []
          → promoted base (last (before k cps)) ≡ base
      same_base base cps k e = rw e refl
