-- ===== src/Apply/Late.antt =====
-- An event out of order removes the checkpoints behind it, also those of authoritative snapshots.
use contime.Prelude.{
  ℕ, zero, suc, ◌<◌, ◌≡◌, ◌⊎◌, refl, sym, ap, ◌∙◌, subst, true, false, some, [], ◌∷◌, ◌++◌, All,
  All-imp, All-passes, last, Bool-cases, inl, inr, arith,
}
use contime.Prelude.Int.{ℤ, pos}
use contime.Prelude.Word.{to_i64}
use contime.Key.{ContimeKey, key_ord, from_event}
use contime.Ord.{◌≺◌, not-lt_self, gt_of_lt}
use contime.BTreeMap.{BTreeMap, contains_key, insert, entries, in_range, Bound, unbounded, excluded}
use contime.BTreeMap.Sorted.{
  IsSorted, insert-IsSorted, filter-IsSorted, contains_key-append, All-contains,
}
use contime.BTreeMap.Ranges.{before, behind, not_contains_filter}
use contime.BTreeMap.Same.{same_key, contains_key-insert-eq}
use contime.Traits.{Snapshot}
use contime.Apply.{Applied, is_end, start_from, replay, apply_out_of_order, apply_event_in_place}
use contime.Apply.Replay.{walk-All}
use contime.Apply.OutOfOrder.{apply_out_of_order-walk}
use contime.Apply.Safe.{IsSound}

module _ {ℓ κ} {S : Type ℓ} {E : Type κ} (T : Snapshot S E) where
  -- a key that a checkpoint may stand at behind an event out of order
  abbrev Remains : ContimeKey → BTreeMap ContimeKey E → ContimeKey → Type 0
  Remains key events k = (contains_key k events ≡ true) ⊎ (k ≺ key)

  reached-Remains :
      (key : ContimeKey) (base : S) (events : BTreeMap ContimeKey E) (start : S × Bound ContimeKey)
      → IsSorted events
      → (xs ys : BTreeMap ContimeKey E) (k : ContimeKey) (e : E)
      → xs ++ (k, e) ∷ ys ≡ entries start.1 unbounded events
      → Remains key events k
  reached-Remains key base events start s xs ys k e w = elim (Bool-cases (contains_key k events)) [
    | inl held ↦ inl held
    | inr missing ↦ absurd (
        true_is_not (
          sym (
            contains_key-append k e xs ys (
              subst IsSorted (sym w)
                (filter-IsSorted (λ x. in_range start.1 unbounded x.0) events s)))
          ∙ ap (contains_key k) w
          ∙ not_contains_filter (in_range start.1 unbounded) k events s missing))
  ]
    where
      true_is_not : true ≡ false → ⊥
      true_is_not q = cc

  out_of_order-Remains :
      (key : ContimeKey) (base : S) (cps : BTreeMap ContimeKey S) (events : BTreeMap ContimeKey E)
      (i : ℕ) (d : ℤ)
      → IsSound T cps events
      → (r : Applied S E) × (apply_out_of_order T key base cps events (suc i) d ≡ some r)
        × All (λ x. Remains key events x.0) r.checkpoints
  unfolding replay
  out_of_order-Remains key base cps events i d v =
      let kept = before key cps in
      let start = start_from T base (last kept) in
      let later = entries start.1 unbounded events in
      (
        _,
        apply_out_of_order-walk T key base cps events i d v.checkpoints_sorted,
        walk-All T (λ x. Remains key events x.0) start.0 later i [] later 0 start.0 kept (pos 0)
            (reached-Remains key base events start v.events_sorted) refl refl
            (All-imp (λ x h. inr (below x.0 h)) kept
              (All-passes (λ x. in_range unbounded (excluded key) x.0) cps)),
      )
    where
      below : (k : ContimeKey) → in_range unbounded (excluded key) k ≡ true → k ≺ key
      below k h = ground (arith, h)

  not_remaining :
      (key k : ContimeKey) (event : E) (events : BTreeMap ContimeKey E)
      (cps : BTreeMap ContimeKey S)
      → key ≺ k
      → contains_key k events ≡ false
      → All (λ x. Remains key (insert key event events) x.0) cps
      → contains_key k cps ≡ false
  not_remaining key k event events cps lt missing a = elim (Bool-cases (contains_key k cps)) [
    | inr gone ↦ gone
    | inl held ↦
        absurd (excluded_by (All-contains (Remains key (insert key event events)) k cps a held))
  ]
    where
      other : same_key k key ≡ false
      other = rw (same_key, gt_of_lt key k lt) refl

      excluded_by : Remains key (insert key event events) k → ⊥
      excluded_by (inl held) =
          bool_clash
            (sym held ∙ contains_key-insert-eq k key event events ∙ rw (other, missing) refl)
        where
          bool_clash : true ≡ false → ⊥
          bool_clash q = cc
      excluded_by (inr before_key) = not-lt_self key (key_ord.lt_trans key k key lt before_key)

  late_sound :
      (event : E) (base : S) (cps : BTreeMap ContimeKey S) (events : BTreeMap ContimeKey E) (i : ℕ)
      → IsSound T cps events
      → contains_key (from_event T.event event) events ≡ false
      → is_end (behind (from_event T.event event) (insert (from_event T.event event) event events))
        ≡ false
      → (r : Applied S E) × (apply_event_in_place T event base cps events (suc i) ≡ some r)
        × All
            (λ x.
              Remains
                (from_event T.event event)
                (insert (from_event T.event event) event events)
                x.0)
            r.checkpoints
  unfolding apply_event_in_place
  late_sound event base cps events i v new earlier =
      let key = from_event T.event event in
      let (r, e, h) =
        out_of_order-Remains key base cps (insert key event events) i
          (to_i64 (T.event.conservative_size event))
          (record {
            events_sorted = insert-IsSorted key event events v.events_sorted;
            checkpoints_sorted = v.checkpoints_sorted;
          }) in
      (r, rw (new, earlier) e, h)

  -- On sorted maps and with a positive interval, a new event with others behind it takes away every
  -- checkpoint at a later key that no event has, which is where authoritative snapshots stand:
  -- `apply_event_in_place` does not panic, and its checkpoints hold nothing at such a key, whatever
  -- was there before.
  pub late_event_forgets :
      (event : E) (base : S) (cps : BTreeMap ContimeKey S) (events : BTreeMap ContimeKey E)
      (interval : ℕ)
      → 0 < interval
      → IsSound T cps events
      → contains_key (from_event T.event event) events ≡ false
      → is_end (behind (from_event T.event event) (insert (from_event T.event event) event events))
        ≡ false
      → (r : Applied S E) × (apply_event_in_place T event base cps events interval ≡ some r)
        × ((k : ContimeKey)
            → from_event T.event event ≺ k
            → contains_key k events ≡ false
            → contains_key k r.checkpoints ≡ false)
  late_event_forgets event base cps events zero h v new earlier = absurd (omega arith)
  late_event_forgets event base cps events (suc i) h v new earlier =
      let (r, e, remains) = late_sound event base cps events i v new earlier in
      (
        r,
        e,
        λ k lt missing.
            not_remaining (from_event T.event event) k event events r.checkpoints lt missing
              remains,
      )
