-- ===== src/Apply/Values.antt =====
-- A predicate on snapshots that events and `set_time` keep, such as their type or their id, holds of
-- all checkpoints if it holds of the base.
use contime.Prelude.{
  ℕ, zero, suc, ◌+◌, ◌<◌, ◌%◌, ◌==◌, ◌≡◌, ◌∙◌, refl, Option, none, some, [], ◌∷◌, All, All-filter,
  last, last-All, length, arith, inl, inr,
}
use contime.Prelude.Int.{ℤ, pos}
use contime.Prelude.Word.{to_i64}
use contime.Key.{ContimeKey, key_ord, from_event}
use contime.BTreeMap.{BTreeMap, insert, entries, unbounded}
use contime.BTreeMap.Sorted.{IsSorted}
use contime.BTreeMap.Ranges.{before}
use contime.Traits.{Snapshot}
use contime.Apply.Branches.{apply_event_in_place-cases}
use contime.Apply.{
  Applied, step, start_from, replay, apply_latest, apply_out_of_order, apply_event_in_place,
}
use contime.Apply.Replay.{walk, insert_if-All}
use contime.Apply.OutOfOrder.{apply_out_of_order-walk}
use contime.Apply.Safe.{IsSound}

module _ {ℓ κ ν} {S : Type ℓ} {E : Type κ} (T : Snapshot S E) (P : S → Type ν) where
  -- the effect of an event and `set_time` keep the predicate
  pub record Keeps : Type (ℓ ⊔ κ ⊔ ν) where
    pub apply_to : (e : E) (s : S) → P s → P (T.apply.apply_to e s)
    pub set_time : (t : ℤ) (s : S) → P s → P (T.set_time t s)

  -- all values of a map have it
  abbrev pub Values : BTreeMap ContimeKey S → Type ν
  Values m = All (λ x. P x.1) m

module _ {ℓ κ ν} {S : Type ℓ} {E : Type κ} (T : Snapshot S E) (P : S → Type ν)
    (keeps : Keeps T P) where
  step-kept : (s : S) (e : E) → P s → P (step T s e)
  unfolding step
  step-kept s e p = keeps.set_time (T.event.time e) _ (keeps.apply_to e s p)

  pub replay-kept : (s : S) (xs : BTreeMap ContimeKey E) → P s → P (replay T s xs)
  unfolding replay
  replay-kept s [] p = p
  replay-kept s ((k, e) ∷ xs) p = replay-kept (step T s e) xs (step-kept s e p)

  start_from-kept :
      (base : S) (cps : BTreeMap ContimeKey S)
      → P base
      → Values T P cps
      → (found : Option (ContimeKey × S)) → last cps ≡ found
      → P (start_from T base found).0
  start_from-kept base cps p v none e = p
  start_from-kept base cps p v (some x) e = last-All (λ y. P y.1) cps x e v

  walk-Values :
      (i : ℕ) (rest : BTreeMap ContimeKey E) (count : ℕ) (s : S) (cps : BTreeMap ContimeKey S)
      (d : ℤ)
      → P s
      → Values T P cps
      → Values T P (walk T i rest count s cps d).0
  unfolding walk
  walk-Values i [] count s cps d p v = v
  walk-Values i ((k, e) ∷ rest) count s cps d p v =
      let due = (count + 1) % suc i == 0 in
      let q = step-kept s e p in
      walk-Values i rest (count + 1) (step T s e) _ _ q
        (insert_if-All T (λ x. P x.1) due k (step T s e) cps q v)

  latest-Values :
      (k : ContimeKey) (base : S) (cps : BTreeMap ContimeKey S) (events : BTreeMap ContimeKey E)
      (i : ℕ) (d : ℤ)
      → P base
      → Values T P cps
      → (r : Applied S E) × (apply_latest T k base cps events (suc i) d ≡ some r)
        × Values T P r.checkpoints
  unfolding apply_latest
  latest-Values k base cps events i d p v =
      let start = start_from T base (last cps) in
      let later = entries start.1 unbounded events in
      (
        _,
        refl,
        insert_if-All T (λ x. P x.1) (length later % suc i == 0) k (replay T start.0 later) cps
            (replay-kept start.0 later (start_from-kept base cps p v (last cps) refl)) v,
      )

  out_of_order-Values :
      (k : ContimeKey) (base : S) (cps : BTreeMap ContimeKey S) (events : BTreeMap ContimeKey E)
      (i : ℕ) (d : ℤ)
      → IsSorted cps
      → P base
      → Values T P cps
      → (r : Applied S E) × (apply_out_of_order T k base cps events (suc i) d ≡ some r)
        × Values T P r.checkpoints
  out_of_order-Values k base cps events i d s p v =
      let kept = before k cps in
      let w : Values T P kept = All-filter (λ x. P x.1) _ cps v in
      let start = start_from T base (last kept) in
      let later = entries start.1 unbounded events in
      let r = walk T i later 0 start.0 kept (pos 0) in
      (
        _,
        apply_out_of_order-walk T k base cps events i d s,
        walk-Values i later 0 start.0 kept (pos 0) (start_from-kept base kept p w (last kept) refl)
            w,
      )

  applied-Values :
      (event : E) (base : S) (cps : BTreeMap ContimeKey S) (events : BTreeMap ContimeKey E) (i : ℕ)
      → IsSound T cps events
      → P base
      → Values T P cps
      → (r : Applied S E) × (apply_event_in_place T event base cps events (suc i) ≡ some r)
        × Values T P r.checkpoints
  applied-Values event base cps events i s p v =
      let key = from_event T.event event in
      let d = to_i64 (T.event.conservative_size event) in
      let all_events = insert key event events in
      elim (apply_event_in_place-cases T event base cps events (suc i)) [
        | inl (held, q) ↦ (record { checkpoints = cps; events = events; bytes_delta = pos 0 }, q, v)
        | inr (new, branch) ↦ elim branch [
          | inl (latest, q) ↦
              let (r, e, w) = latest-Values key base cps all_events i d p v in (r, q ∙ e, w)
          | inr (earlier, q) ↦
              let (r, e, w) =
                out_of_order-Values key base cps all_events i d s.checkpoints_sorted p v in
              (r, q ∙ e, w)
        ]
      ]

  -- on sorted maps and with a positive interval the checkpoints keep the predicate
  pub apply_event_in_place-Values :
      (event : E) (base : S) (cps : BTreeMap ContimeKey S) (events : BTreeMap ContimeKey E)
      (interval : ℕ)
      → 0 < interval
      → IsSound T cps events
      → P base
      → Values T P cps
      → (r : Applied S E) × (apply_event_in_place T event base cps events interval ≡ some r)
        × Values T P r.checkpoints
  apply_event_in_place-Values event base cps events zero h s p v = absurd (omega arith)
  apply_event_in_place-Values event base cps events (suc i) h s p v =
      applied-Values event base cps events i s p v
