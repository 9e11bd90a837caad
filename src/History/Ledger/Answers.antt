-- ===== src/History/Ledger/Answers.antt =====
-- `snapshot_at` on a history with several authoritative snapshots.
use contime.Prelude.{
  ◌≡◌, ◌⊎◌, ap, ◌∙◌, true, false, some, All-imp, All-both, All-filter, All-passes, last, last-All,
  Option-cases, inl, inr, arith,
}
use contime.Prelude.Int.{ℤ}
use contime.Key.{ContimeKey, key_ord}
use contime.Ord.{◌≺◌, is_le, gt_of_lt}
use contime.BTreeMap.{
  BTreeMap, Bound, included, excluded, unbounded, contains_key, entries, out_of_order, in_range,
  below,
}
use contime.BTreeMap.Sorted.{KeysBefore}
use contime.BTreeMap.Ranges.{upto, upto-IsLower}
use contime.Traits.{Snapshot, SetsTime, IgnoresTime}
use contime.Channel.{Channel}
use contime.Apply.{start_from}
use contime.Apply.Layers.{IsLayered, IsLayered-cut, IsLayer}
use contime.Apply.Layers.Resume.{IsResumed, resume}
use contime.History.{History, apply_all, snapshot_at}
use contime.History.Query.{query_key, range_in_order, key_below, apply_all-replay}

module _ {ℓ κ} {S : Type ℓ} {E : Type κ} (T : Snapshot S E) where
  -- checkpoints up to a key that neither an event nor an authority has lie before it
  layers_before :
      (base : S) (a cps : BTreeMap ContimeKey S) (events : BTreeMap ContimeKey E) (q : ContimeKey)
      → IsLayered T base a cps events
      → contains_key q events ≡ false
      → contains_key q a ≡ false
      → KeysBefore q (upto q cps)
  layers_before base a cps events q v n m =
      All-imp (λ x h. placed x.0 h.0 h.1.0) (upto q cps)
        (All-both (λ x. is_le (key_ord.cmp x.0 q) ≡ true) (IsLayer T base a events) (upto q cps)
          (All-passes (λ x. in_range unbounded (included q) x.0) cps)
          (All-filter (IsLayer T base a events) (λ x. in_range unbounded (included q) x.0) cps
            v.layers))
    where
      placed :
          (j : ContimeKey)
          → is_le (key_ord.cmp j q) ≡ true
          → (contains_key j events ≡ true) ⊎ (contains_key j a ≡ true)
          → j ≺ q
      placed j le (inl e) = key_below j q events e n le
      placed j le (inr e) = key_below j q a e m le

  start_in_order :
      (base : S) (cps : BTreeMap ContimeKey S) (q : ContimeKey)
      → KeysBefore q cps
      → out_of_order (start_from T base (last cps)).1 (excluded q) ≡ false
  start_in_order base cps q b = elim (Option-cases (last cps)) [
    | inl e ↦ rw e
    | inr ((k, c), e) ↦ rw e (rw (gt_of_lt k q (last-All (λ x. x.0 ≺ q) cps (k, c) e b)))
  ]

  IsResumed-before :
      (base : S) (a cps : BTreeMap ContimeKey S) (events : BTreeMap ContimeKey E) (q : ContimeKey)
      → IsLayered T base a cps events
      → KeysBefore q (upto q cps)
      → IsResumed T
          (start_from T base (last (upto q a)))
          (start_from T base (last (upto q cps)))
          events
          (excluded q)
  IsResumed-before base a cps events q v b =
      resume T base (upto q a) (upto q cps) events (excluded q)
        (IsLayered-cut T (in_range unbounded (included q)) base a cps events (upto-IsLower q) v)
        (All-imp (λ y h x le. before_it x y.0 le h) (upto q cps) b)
    where
      before_it :
          (x y : ContimeKey) → is_le (key_ord.cmp x y) ≡ true → y ≺ q → below (excluded q) x ≡ true
      before_it x y le h = ground (arith, key_ord.lt_trans x y q, key_ord.eq_of_cmp x y)

module _ {ℓ κ μ} {S : Type ℓ} {E : Type κ} {C : Type μ} (T : Snapshot S E) (F : Channel C)
    (sets : SetsTime T) (ignores : IgnoresTime T) where
  -- on layered checkpoints a query that has the key of no event and of no authority goes on from
  -- the last authority up to it
  pub snapshot_at_layered :
      (a : BTreeMap ContimeKey S) (t : ℤ) (h : History S E C)
      → IsLayered T h.base_snapshot a h.checkpoints h.events
      → contains_key (query_key t h.snapshot_id) h.events ≡ false
      → contains_key (query_key t h.snapshot_id) a ≡ false
      → let query = query_key t h.snapshot_id in
        let start = start_from T h.base_snapshot (last (upto query a)) in
        snapshot_at T F t h
        ≡ some (
          T.set_time t (apply_all T start.0 (entries start.1 (excluded query) h.events)),
          h.reconciliation,
        )
  unfolding snapshot_at
  snapshot_at_layered a t h v n m =
      rw
        (range_in_order start.1 (excluded q) h.events
          (start_in_order T h.base_snapshot (upto q h.checkpoints) q b))
        (ap (λ s. some (s, h.reconciliation))
          (rw r.reached (
            apply_all-replay T sets ignores t top.0 r.skipped _
            ∙ ap (λ xs. T.set_time t (apply_all T top.0 xs)) r.whole)))
    where
      q : ContimeKey
      q = query_key t h.snapshot_id

      b : KeysBefore q (upto q h.checkpoints)
      b = layers_before T h.base_snapshot a h.checkpoints h.events q v n m

      top : S × Bound ContimeKey
      top = start_from T h.base_snapshot (last (upto q a))

      start : S × Bound ContimeKey
      start = start_from T h.base_snapshot (last (upto q h.checkpoints))

      r : IsResumed T top start h.events (excluded q)
      r = IsResumed-before T h.base_snapshot a h.checkpoints h.events q v b
