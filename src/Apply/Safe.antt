-- ===== src/Apply/Safe.antt =====
-- `apply_event_in_place` does not panic on sorted maps, whatever the checkpoints hold.
use contime.Prelude.{
  ℕ, zero, suc, ◌<◌, ◌%◌, ◌==◌, ◌≡◌, ◌∙◌, refl, some, last, length, arith, inl, inr,
}
use contime.Prelude.Int.{ℤ, pos}
use contime.Prelude.Word.{to_i64}
use contime.Key.{ContimeKey, key_ord, from_event}
use contime.BTreeMap.{BTreeMap, insert, entries, unbounded}
use contime.BTreeMap.Sorted.{IsSorted, insert-IsSorted, filter-IsSorted}
use contime.BTreeMap.Ranges.{before}
use contime.Traits.{Snapshot}
use contime.Apply.Branches.{apply_event_in_place-cases}
use contime.Apply.{
  Applied, start_from, replay, apply_latest, apply_out_of_order, apply_event_in_place,
}
use contime.Apply.Replay.{walk, walk-IsSorted, insert_if-IsSorted}
use contime.Apply.OutOfOrder.{apply_out_of_order-walk}

module _ {ℓ κ} {S : Type ℓ} {E : Type κ} (T : Snapshot S E) where
  pub record IsSound (cps : BTreeMap ContimeKey S) (events : BTreeMap ContimeKey E) : Type 0 where
    pub events_sorted : IsSorted events
    pub checkpoints_sorted : IsSorted cps

  latest_safe :
      (k : ContimeKey) (base : S) (cps : BTreeMap ContimeKey S) (events : BTreeMap ContimeKey E)
      (i : ℕ) (d : ℤ)
      → IsSound cps events
      → (r : Applied S E) × (apply_latest T k base cps events (suc i) d ≡ some r)
        × IsSound r.checkpoints r.events
  unfolding apply_latest
  latest_safe k base cps events i d v =
      let start = start_from T base (last cps) in
      let later = entries start.1 unbounded events in
      (
        _,
        refl,
        record {
          events_sorted = v.events_sorted;
          checkpoints_sorted =
              insert_if-IsSorted T (length later % suc i == 0) k (replay T start.0 later) cps
                v.checkpoints_sorted;
        },
      )

  out_of_order_safe :
      (k : ContimeKey) (base : S) (cps : BTreeMap ContimeKey S) (events : BTreeMap ContimeKey E)
      (i : ℕ) (d : ℤ)
      → IsSound cps events
      → (r : Applied S E) × (apply_out_of_order T k base cps events (suc i) d ≡ some r)
        × IsSound r.checkpoints r.events
  out_of_order_safe k base cps events i d v =
      let kept = before k cps in
      let sorted = filter-IsSorted _ cps v.checkpoints_sorted in
      let start = start_from T base (last kept) in
      let later = entries start.1 unbounded events in
      let r = walk T i later 0 start.0 kept (pos 0) in
      (
        _,
        apply_out_of_order-walk T k base cps events i d v.checkpoints_sorted,
        record {
          events_sorted = v.events_sorted;
          checkpoints_sorted = walk-IsSorted T i later 0 start.0 kept (pos 0) sorted;
        },
      )

  safe :
      (event : E) (base : S) (cps : BTreeMap ContimeKey S) (events : BTreeMap ContimeKey E) (i : ℕ)
      → IsSound cps events
      → (r : Applied S E) × (apply_event_in_place T event base cps events (suc i) ≡ some r)
        × IsSound r.checkpoints r.events
  safe event base cps events i v =
      let key = from_event T.event event in
      let d = to_i64 (T.event.conservative_size event) in
      let all_events = insert key event events in
      let v' : IsSound cps all_events = record {
        events_sorted = insert-IsSorted key event events v.events_sorted;
        checkpoints_sorted = v.checkpoints_sorted;
      } in
      elim (apply_event_in_place-cases T event base cps events (suc i)) [
        | inl (held, q) ↦ (record { checkpoints = cps; events = events; bytes_delta = pos 0 }, q, v)
        | inr (new, branch) ↦ elim branch [
          | inl (latest, q) ↦
              let (r, e, h) = latest_safe key base cps all_events i d v' in (r, q ∙ e, h)
          | inr (earlier, q) ↦
              let (r, e, h) = out_of_order_safe key base cps all_events i d v' in (r, q ∙ e, h)
        ]
      ]

  -- On sorted maps and with a positive interval `apply_event_in_place` does not panic, whatever the
  -- checkpoints hold, and returns sorted maps.
  pub apply_event_in_place_safe :
      (event : E) (base : S) (cps : BTreeMap ContimeKey S) (events : BTreeMap ContimeKey E)
      (interval : ℕ)
      → 0 < interval
      → IsSound cps events
      → (r : Applied S E) × (apply_event_in_place T event base cps events interval ≡ some r)
        × IsSound r.checkpoints r.events
  apply_event_in_place_safe event base cps events zero h v = absurd (omega arith)
  apply_event_in_place_safe event base cps events (suc i) h v = safe event base cps events i v
