-- ===== src/Worker/Store.antt =====
-- An abstract store: for each id the ledger of what came for it. A worker answers queries from its
-- histories as the store says.
use contime.Prelude.{
  eq_of_same, ℕ, ◌≡◌, refl, ◌∙◌, false, Option, none, some, ◌==◌, Bool-cases, inl, inr,
  if◌then◌else◌,
}
use contime.Prelude.Int.{ℤ, pos}
use contime.Key.{key_ord}
use contime.Traits.{Snapshot}
use contime.Channel.{Channel}
use contime.Table.{Table, IsTable}
use contime.Apply.Layers.Event.{IsInFront}
use contime.History.{History, new}
use contime.History.Ledger.{Ledger, take_event, take_authority, new_ledger}
use contime.History.Ledger.Refines.{new-Represents, event_refines, snapshot_refines}
use contime.History.Ledger.Refines
use contime.Worker.{
  WorkerState, completed, updated_usage, entry_or_new, handle_event, take_snapshot, handle_snapshot,
}

module _ {ℓ κ} {S : Type ℓ} {E : Type κ} (T : Snapshot S E) where
  -- the ledger to which an event is added that comes with a snapshot
  abbrev pub entry_before : S → Option (Ledger S E) → Ledger S E
  entry_before s none = new_ledger T s
  entry_before s (some l) = l

  -- the ledger after a snapshot: the first one for an id opens it
  abbrev pub entry_with : S → Option (Ledger S E) → Ledger S E
  entry_with s none = new_ledger T s
  entry_with s (some l) = take_authority T s l

  abbrev pub Store : Type (ℓ ⊔ κ)
  Store = ℕ → Option (Ledger S E)

  abbrev pub no_entries : Store
  no_entries k = none

  abbrev pub set_entry : ℕ → Ledger S E → Store → Store
  set_entry k l σ j = if k == j then some l else σ j

  abbrev pub put : ℕ → E → S → Store → Store
  put k e s σ = set_entry k (take_event T e (entry_before s (σ k))) σ

  abbrev pub put_snapshot : S → Store → Store
  put_snapshot s σ = set_entry (T.id s) (entry_with s (σ (T.id s))) σ

  id-take_authority : (s : S) (l : Ledger S E) → (take_authority T s l).id ≡ l.id
  id-take_authority s l = elim (Bool-cases (T.id s == l.id)) [
    | inl same ↦ rw same refl
    | inr other ↦ rw other refl
  ]

module _ {ℓ κ μ} {S : Type ℓ} {E : Type κ} {C : Type μ} (T : Snapshot S E) (F : Channel C) where
  -- a history holds an entry of the store
  abbrev pub Holds : ℕ → Ledger S E → History S E C → Type (ℓ ⊔ κ)
  Holds k l h = (l.id ≡ k) × Refines.Represents T F l h

  abbrev pub Shows : ℕ → Option (Ledger S E) → Option (History S E C) → Type (ℓ ⊔ κ ⊔ μ)
  Shows k none o = o ≡ none
  Shows k (some l) o = (h : History S E C) × (o ≡ some h) × Holds k l h

module _ {ℓ κ μ ν} {S : Type ℓ} {E : Type κ} {C : Type μ} {M : Type ν} (T : Snapshot S E)
    (F : Channel C) (H : Table M (History S E C)) (P : ℕ → Type 0) where
  -- at the ids with `P` the histories of a worker hold the store
  abbrev pub Represents : Store T → M → Type (ℓ ⊔ κ ⊔ μ)
  Represents σ m = (k : ℕ) → P k → Shows T F k (σ k) (H.get k m)

  ready :
      (delta : ℤ) (k : ℕ) (s : S) (entry : Option (Ledger S E)) (o : Option (History S E C))
      (w : WorkerState M)
      → T.id s ≡ k
      → Shows T F k entry o
      → Holds T F k (entry_before T s entry) (entry_or_new T F H delta k s o w).0
  unfolding entry_or_new
  ready delta k s none o w q v = rw v (q, new-Represents T F s (pos 0) delta)
  ready delta k s (some l) o w q (h, e, v) = rw e v

  -- a worker puts the history of an entry where the store has the entry
  put-Represents :
      IsTable H
      → (k : ℕ) (l : Ledger S E) (h : History S E C) (σ : Store T) (m : M) → Holds T F k l h
      → ((j : ℕ) → P j → (k == j) ≡ false → Shows T F j (σ j) (H.get j m))
      → Represents (set_entry T k l σ) (H.insert k h m)
  put-Represents table k l h σ m v rest = λ j p. elim (Bool-cases (k == j)) [
    | inl same ↦ rw (table.get-insert j k h m, same) (h, refl, (v.0 ∙ eq_of_same k j same, v.1))
    | inr other ↦ rw (table.get-insert j k h m, other) (rest j p other)
  ]

  get-entry_or_new :
      IsTable H
      → (delta : ℤ) (j k : ℕ) (s : S) (o : Option (History S E C)) (w : WorkerState M)
      → (k == j) ≡ false
      → H.get j (entry_or_new T F H delta k s o w).1.history_by_id ≡ H.get j w.history_by_id
  unfolding entry_or_new
  get-entry_or_new table delta j k s none w q =
      rw (table.get-insert j k (new T F s (pos 0) delta).0 w.history_by_id, q) refl
  get-entry_or_new table delta j k s (some h) w q = refl

  -- a worker takes an event as the store does
  pub event-Represents :
      IsTable H
      → (delta : ℤ) (k : ℕ) (e : E) (s : S) (σ : Store T) (w : WorkerState M) → T.id s ≡ k
      → let l = entry_before T s (σ k) in
        IsInFront T e l.authorities l.events
        → P k
        → Represents σ w.history_by_id
        → (w' : WorkerState M) × (handle_event T F H delta k e s w ≡ some (w', completed))
          × Represents (put T k e s σ) w'.history_by_id
  unfolding handle_event
  event-Represents table delta k e s σ w q front here v =
      let o = H.get k w.history_by_id in
      let (h, w₁) = entry_or_new T F H delta k s o w in
      let (own, held) = ready delta k s (σ k) o w q (v k here) in
      let (h', d, applied, t) = event_refines T F e (entry_before T s (σ k)) h held front in
      (
        record {
          history_by_id = H.insert k h' w₁.history_by_id;
          memory_usage = updated_usage d w₁.memory_usage;
        },
        rw applied refl,
        put-Represents table k (take_event T e (entry_before T s (σ k))) h' σ w₁.history_by_id
            (own, t) (λ j p other. rw (get-entry_or_new table delta j k s o w other) (v j p)),
      )

  snapshot_taken :
      (delta : ℤ) (s : S) (entry : Option (Ledger S E)) (o : Option (History S E C))
      → Shows T F (T.id s) entry o
      → (h : History S E C) × (d : ℤ) × (take_snapshot T F H delta s o ≡ some (h, d))
        × Holds T F (T.id s) (entry_with T s entry) h
  unfolding take_snapshot
  snapshot_taken delta s none o v = (
    (new T F s (pos 0) delta).0,
    (new T F s (pos 0) delta).1,
    rw v refl,
    (refl, new-Represents T F s (pos 0) delta),
  )
  snapshot_taken delta s (some l) o (h, e, (own, held)) =
      let (h', d, applied, t) = snapshot_refines T F s l h held in
      (h', d, rw e applied, (id-take_authority T s l ∙ own, t))

  -- a worker takes an authoritative snapshot as the store does
  pub snapshot-Represents :
      IsTable H
      → (delta : ℤ) (s : S) (σ : Store T) (w : WorkerState M) → P (T.id s)
      → Represents σ w.history_by_id
      → (w' : WorkerState M) × (handle_snapshot T F H delta s w ≡ some (w', completed))
        × Represents (put_snapshot T s σ) w'.history_by_id
  unfolding handle_snapshot
  snapshot-Represents table delta s σ w here v =
      let k = T.id s in
      let (h, d, taken, held) = snapshot_taken delta s (σ k) (H.get k w.history_by_id) (v k here) in
      (
        record {
          history_by_id = H.insert k h w.history_by_id;
          memory_usage = updated_usage d w.memory_usage;
        },
        rw taken refl,
        put-Represents table k (entry_with T s (σ k)) h σ w.history_by_id held (λ j p other. v j p),
      )
