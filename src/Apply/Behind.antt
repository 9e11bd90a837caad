-- ===== src/Apply/Behind.antt =====
-- The latest event in front of the last checkpoint, as an authoritative snapshot leaves it.
use contime.Prelude.{
  ℕ, ◌%◌, ◌==◌, zero, suc, ◌<◌, ◌≡◌, refl, true, false, some, [], ◌∷◌, last, Bool-cases, inl, inr,
  arith,
}
use contime.Prelude.Int.{ℤ}
use contime.Prelude.Word.{to_i64, add_i64}
use contime.Key.{ContimeKey, key_ord, from_event}
use contime.Ord.{◌≺◌}
use contime.BTreeMap.{BTreeMap, contains_key, insert, entries, in_range, excluded, unbounded}
use contime.BTreeMap.Ranges.{behind}
use contime.Traits.{Snapshot}
use contime.Apply.{is_end, replay, apply_latest, apply_event_in_place}

none_behind {κ} :
    {V : Type κ} (key k : ContimeKey) (m : BTreeMap ContimeKey V)
    → key ≺ k
    → is_end (behind key m) ≡ true
    → entries (excluded k) unbounded m ≡ []
none_behind key k [] lt e = refl
none_behind key k ((j, w) ∷ m) lt e = elim (Bool-cases (in_range (excluded key) unbounded j)) [
  | inl after ↦ absurd (clash (rw after at e))
  | inr before ↦ rw (outside before) (none_behind key k m lt (rw before at e))
]
  where
    clash : false ≡ true → ⊥
    clash q = cc

    outside :
        in_range (excluded key) unbounded j ≡ false → in_range (excluded k) unbounded j ≡ false
    outside h = ground (arith, h, key_ord.lt_trans key k j lt)

-- no event to replay counts as a multiple of any interval
always_due : (i : ℕ) → (0 % suc i == 0) ≡ true
always_due i = ground arith

module _ {ℓ κ} {S : Type ℓ} {E : Type κ} (T : Snapshot S E) where
  -- Where the last checkpoint stands behind a new event that is the latest of all, as an
  -- authoritative snapshot may: with a positive interval `apply_event_in_place` does not panic,
  -- puts the event in, and stores the state of that checkpoint, without the event, as a checkpoint
  -- at the key of the event.
  pub late_authority_stored :
      (event : E) (base : S) (cps : BTreeMap ContimeKey S) (events : BTreeMap ContimeKey E)
      (interval : ℕ) (k : ContimeKey) (c : S)
      → 0 < interval
      → contains_key (from_event T.event event) events ≡ false
      → is_end (behind (from_event T.event event) (insert (from_event T.event event) event events))
        ≡ true
      → last cps ≡ some (k, c)
      → from_event T.event event ≺ k
      → (d : ℤ) × (apply_event_in_place T event base cps events interval
          ≡ some (record {
            checkpoints = insert (from_event T.event event) c cps;
            events = insert (from_event T.event event) event events;
            bytes_delta = d;
          }))
  unfolding apply_event_in_place apply_latest replay
  late_authority_stored event base cps events zero k c h new latest at_end lt = absurd (omega arith)
  late_authority_stored event base cps events (suc i) k c h new latest at_end lt =
      let key = from_event T.event event in
      let empty = none_behind key k (insert key event events) lt latest in
      (
        add_i64 (to_i64 (T.event.conservative_size event)) (to_i64 (T.conservative_size c)),
        rw (new, latest) (rw at_end (rw empty (rw (always_due i) refl))),
      )
