-- ===== src/Worker/Memory.antt =====
-- What a thread does with a message, whatever the shared counter of bytes is at.
use contime.Prelude.{
  ℕ, ◌≡◌, refl, ap, ◌∙◌, Option, none, some, Option-cases, inl, inr, List, [], ◌∷◌,
}
use contime.Prelude.Int.{ℤ, pos}
use contime.Traits.{Snapshot}
use contime.Channel.{Channel}
use contime.Table.{Table}
use contime.History.{History, new, advance, apply_event, def_deps}
use contime.Worker.{
  WorkerState, WorkerInbound, event, snapshot, snapshot_at_time, advance_time, shutdown, Reply,
  completed, entry_or_new, advance_one, advance_each, handle_event, take_snapshot, handle_snapshot,
  answer, handle_inbound,
}

module _ {ℓ κ μ ν} {S : Type ℓ} {E : Type κ} {C : Type μ} {M : Type ν} (T : Snapshot S E)
    (F : Channel C) (H : Table M (History S E C)) where
  -- a state with another counter
  abbrev pub with_usage : ℕ → WorkerState M → WorkerState M
  with_usage m w = record w { memory_usage = m }

  -- a result without the counter
  abbrev pub essence : Option (WorkerState M × Reply S C) → Option (M × Reply S C)
  essence none = none
  essence (some (w, reply)) = some (w.history_by_id, reply)

  advance_one-usage :
      (time : ℤ) (k : ℕ) (o : Option (History S E C)) (w v : WorkerState M)
      → w.history_by_id ≡ v.history_by_id
      → (advance_one T F H time k o w).history_by_id ≡ (advance_one T F H time k o v).history_by_id
  unfolding advance_one
  advance_one-usage time k none w v e = e
  advance_one-usage time k (some h) w v e = ap (λ m. H.insert k (advance T F time h).0 m) e

  advance_one_of :
      (time : ℤ) (k : ℕ) (o p : Option (History S E C)) (w v : WorkerState M)
      → o ≡ p
      → w.history_by_id ≡ v.history_by_id
      → (advance_one T F H time k o w).history_by_id ≡ (advance_one T F H time k p v).history_by_id
  advance_one_of time k o p w v q e =
      ap (λ x. (advance_one T F H time k x w).history_by_id) q ∙ advance_one-usage time k p w v e

  advance_each-usage :
      (time : ℤ) (ids : List ℕ) (w v : WorkerState M)
      → w.history_by_id ≡ v.history_by_id
      → (advance_each T F H time ids w).history_by_id
        ≡ (advance_each T F H time ids v).history_by_id
  unfolding advance_each
  advance_each-usage time [] w v e = e
  advance_each-usage time (k ∷ ids) w v e =
      advance_each-usage time ids (advance_one T F H time k (H.get k w.history_by_id) w)
        (advance_one T F H time k (H.get k v.history_by_id) v)
        (advance_one_of time k (H.get k w.history_by_id) (H.get k v.history_by_id) w v
          (ap (H.get k) e) e)

  entry_or_new-usage :
      (delta : ℤ) (k m : ℕ) (s : S) (o : Option (History S E C)) (w : WorkerState M)
      → ((entry_or_new T F H delta k s o w).0 ≡ (entry_or_new T F H delta k s o (with_usage m w)).0)
        × ((entry_or_new T F H delta k s o w).1.history_by_id
            ≡ (entry_or_new T F H delta k s o (with_usage m w)).1.history_by_id)
  unfolding entry_or_new
  entry_or_new-usage delta k m s none w = (refl, refl)
  entry_or_new-usage delta k m s (some h) w = (refl, refl)

  handle_event-usage :
      (delta : ℤ) (k m : ℕ) (e : E) (s : S) (w : WorkerState M)
      → essence (handle_event T F H delta k e s w)
        ≡ essence (handle_event T F H delta k e s (with_usage m w))
  unfolding handle_event entry_or_new
  handle_event-usage delta k m e s w = elim (Option-cases (H.get k w.history_by_id)) [
    | inl absent ↦
        elim (Option-cases (apply_event T F (def_deps T) e (new T F s (pos 0) delta).0)) [
          | inl panic ↦ rw absent (rw panic refl)
          | inr (r, eq) ↦ rw absent (rw eq refl)
        ]
    | inr (h, there) ↦ elim (Option-cases (apply_event T F (def_deps T) e h)) [
      | inl panic ↦ rw there (rw panic refl)
      | inr (r, eq) ↦ rw there (rw eq refl)
    ]
  ]

  handle_snapshot-usage :
      (delta : ℤ) (m : ℕ) (s : S) (w : WorkerState M)
      → essence (handle_snapshot T F H delta s w)
        ≡ essence (handle_snapshot T F H delta s (with_usage m w))
  unfolding handle_snapshot
  handle_snapshot-usage delta m s w =
      elim (Option-cases (take_snapshot T F H delta s (H.get (T.id s) w.history_by_id))) [
        | inl panic ↦ rw panic refl
        | inr (r, eq) ↦ rw eq refl
      ]

  -- What a worker does with any message depends on its histories and not on the counter of bytes
  -- that it shares with the others: it panics or not, replies and changes its histories in the
  -- same way whatever the counter is at.
  pub handle_inbound-usage :
      (delta : ℤ) (inbound : WorkerInbound S E) (m : ℕ) (w : WorkerState M)
      → essence (handle_inbound T F H delta inbound w)
        ≡ essence (handle_inbound T F H delta inbound (with_usage m w))
  unfolding handle_inbound
  handle_inbound-usage delta (event k e s) m w = handle_event-usage delta k m e s w
  handle_inbound-usage delta (snapshot s) m w = handle_snapshot-usage delta m s w
  handle_inbound-usage delta (advance_time time) m w =
      ap (λ h. some (h, completed))
        (advance_each-usage time (H.keys w.history_by_id) w (with_usage m w) refl)
  handle_inbound-usage delta (snapshot_at_time k time) m w =
      elim (Option-cases (answer T F H time (H.get k w.history_by_id))) [
        | inl panic ↦ rw panic refl
        | inr (a, eq) ↦ rw eq refl
      ]
  handle_inbound-usage delta shutdown m w = refl
