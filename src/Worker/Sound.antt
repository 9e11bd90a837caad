-- ===== src/Worker/Sound.antt =====
-- What a worker holds: at every id a history of that id whose maps are sorted. The messages that
-- change the histories.
use contime.Prelude.{
  eq_of_same, ℕ, ◌≡◌, refl, ◌∙◌, subst, Option, none, some, List, [], ◌∷◌, ◌==◌, Bool-cases, inl,
  inr,
}
use contime.Prelude.Int.{ℤ, pos}
use contime.Traits.{Snapshot}
use contime.Channel.{Channel}
use contime.Table.{Table, IsTable}
use contime.History.{History, new, advance}
use contime.History.Safe.{
  IsSound, new-IsSound, id-new, advance-IsSound, id-advance, apply_event_safe, apply_snapshot_safe,
}
use contime.Worker.{
  WorkerState, WorkerInbound, event, snapshot, snapshot_at_time, advance_time, shutdown, completed,
  updated_usage, entry_or_new, advance_one, advance_each, handle_event, take_snapshot,
  handle_snapshot, handle_inbound,
}

module _ {ℓ κ μ ν} {S : Type ℓ} {E : Type κ} {C : Type μ} {M : Type ν} (T : Snapshot S E)
    (F : Channel C) (H : Table M (History S E C)) (P : ℕ → Type 0) where
  -- what the map has at an id: nothing, or a sound history of that id, which may be here by `P`
  abbrev pub IsOwn : ℕ → Option (History S E C) → Type 0
  IsOwn k none = Unit {0}
  IsOwn k (some h) = IsSound T F h × (h.snapshot_id ≡ k) × P k

  abbrev pub Holds : M → Type 0
  Holds m = (k : ℕ) → IsOwn k (H.get k m)

  insert-Holds :
      IsTable H
      → (m : M) (k : ℕ) (h : History S E C) → Holds m
      → IsOwn k (some h)
      → Holds (H.insert k h m)
  insert-Holds table m k h v own j = elim (Bool-cases (k == j)) [
    | inl same ↦
        rw (table.get-insert j k h m, same)
          (subst (λ i. IsOwn i (some h)) (eq_of_same k j same) own)
    | inr other ↦ rw (table.get-insert j k h m, other) (v j)
  ]

  entry_or_new-IsOwn :
      (delta : ℤ) (k : ℕ) (s : S) (o : Option (History S E C)) (w : WorkerState M)
      → T.id s ≡ k
      → P k
      → IsOwn k o
      → IsOwn k (some (entry_or_new T F H delta k s o w).0)
  unfolding entry_or_new
  entry_or_new-IsOwn delta k s none w q p v =
      (new-IsSound T F s (pos 0) delta, id-new T F s (pos 0) delta ∙ q, p)
  entry_or_new-IsOwn delta k s (some h) w q p v = v

  entry_or_new-Holds :
      IsTable H
      → (delta : ℤ) (k : ℕ) (s : S) (o : Option (History S E C)) (w : WorkerState M) → T.id s ≡ k
      → P k
      → Holds w.history_by_id
      → Holds (entry_or_new T F H delta k s o w).1.history_by_id
  unfolding entry_or_new
  entry_or_new-Holds table delta k s none w q p v =
      insert-Holds table w.history_by_id k (new T F s (pos 0) delta).0 v
        (new-IsSound T F s (pos 0) delta, id-new T F s (pos 0) delta ∙ q, p)
  entry_or_new-Holds table delta k s (some h) w q p v = v

  handle_event-Holds :
      IsTable H
      → (delta : ℤ) (k : ℕ) (e : E) (s : S) (w : WorkerState M) → T.id s ≡ k
      → P k
      → Holds w.history_by_id
      → (w' : WorkerState M) × (handle_event T F H delta k e s w ≡ some (w', completed))
        × Holds w'.history_by_id
  unfolding handle_event
  handle_event-Holds table delta k e s w q p v =
      let o = H.get k w.history_by_id in
      let (h, w') = entry_or_new T F H delta k s o w in
      let own = entry_or_new-IsOwn delta k s o w q p (v k) in
      let (h', d, eq, sound, same) = apply_event_safe T F e h own.0 in
      (
        record {
          history_by_id = H.insert k h' w'.history_by_id;
          memory_usage = updated_usage d w'.memory_usage;
        },
        rw eq refl,
        insert-Holds table w'.history_by_id k h' (entry_or_new-Holds table delta k s o w q p v)
            (sound, same ∙ own.1, p),
      )

  advance_one-Holds :
      IsTable H
      → (time : ℤ) (k : ℕ) (o : Option (History S E C)) (w : WorkerState M) → Holds w.history_by_id
      → IsOwn k o
      → Holds (advance_one T F H time k o w).history_by_id
  unfolding advance_one
  advance_one-Holds table time k none w v own = v
  advance_one-Holds table time k (some h) w v own =
      insert-Holds table w.history_by_id k (advance T F time h).0 v
        (advance-IsSound T F time h own.0, id-advance T F time h ∙ own.1, own.2)

  advance_each-Holds :
      IsTable H
      → (time : ℤ) (ids : List ℕ) (w : WorkerState M) → Holds w.history_by_id
      → Holds (advance_each T F H time ids w).history_by_id
  unfolding advance_each
  advance_each-Holds table time [] w v = v
  advance_each-Holds table time (k ∷ ids) w v =
      advance_each-Holds table time ids (advance_one T F H time k (H.get k w.history_by_id) w)
        (advance_one-Holds table time k (H.get k w.history_by_id) w v (v k))

  take_snapshot-IsOwn :
      (delta : ℤ) (s : S) (o : Option (History S E C))
      → P (T.id s)
      → IsOwn (T.id s) o
      → (h' : History S E C) × (d : ℤ) × (take_snapshot T F H delta s o ≡ some (h', d))
        × IsOwn (T.id s) (some h')
  unfolding take_snapshot
  take_snapshot-IsOwn delta s none p v =
      let r = new T F s (pos 0) delta in
      (r.0, r.1, refl, (new-IsSound T F s (pos 0) delta, id-new T F s (pos 0) delta, p))
  take_snapshot-IsOwn delta s (some h) p v =
      let (h', d, e, sound, same) = apply_snapshot_safe T F s h v.0 in
      (h', d, e, (sound, same ∙ v.1, p))

  handle_snapshot-Holds :
      IsTable H
      → (delta : ℤ) (s : S) (w : WorkerState M) → P (T.id s)
      → Holds w.history_by_id
      → (w' : WorkerState M) × (handle_snapshot T F H delta s w ≡ some (w', completed))
        × Holds w'.history_by_id
  unfolding handle_snapshot
  handle_snapshot-Holds table delta s w p v =
      let (h', d, e, own) =
        take_snapshot-IsOwn delta s (H.get (T.id s) w.history_by_id) p (v (T.id s)) in
      (
        record {
          history_by_id = H.insert (T.id s) h' w.history_by_id;
          memory_usage = updated_usage d w.memory_usage;
        },
        rw e refl,
        insert-Holds table w.history_by_id (T.id s) h' v own,
      )

  -- what the router sends: an event comes with a snapshot of the id that it goes to, and the id
  -- may be here
  abbrev pub IsUpdate : WorkerInbound S E → Type 0
  IsUpdate (event k e s) = (T.id s ≡ k) × P k
  IsUpdate (snapshot s) = P (T.id s)
  IsUpdate (advance_time time) = Unit {0}
  IsUpdate (snapshot_at_time k time) = ⊥
  IsUpdate shutdown = ⊥

  -- On a worker whose histories are sound and stand at their own ids, all of them ids with `P`, an
  -- event that comes with a snapshot of its id, a snapshot, both of an id with `P`, and an advance
  -- do not panic, are answered as completed, and leave the histories sound, at their own ids, and
  -- at ids with `P`.
  pub handle_inbound-Holds :
      IsTable H
      → (delta : ℤ) (inbound : WorkerInbound S E) (w : WorkerState M) → IsUpdate inbound
      → Holds w.history_by_id
      → (w' : WorkerState M) × (handle_inbound T F H delta inbound w ≡ some (w', completed))
        × Holds w'.history_by_id
  unfolding handle_inbound
  handle_inbound-Holds table delta (event k e s) w q v =
      handle_event-Holds table delta k e s w q.0 q.1 v
  handle_inbound-Holds table delta (snapshot s) w q v = handle_snapshot-Holds table delta s w q v
  handle_inbound-Holds table delta (advance_time time) w q v = (
    advance_each T F H time (H.keys w.history_by_id) w,
    refl,
    advance_each-Holds table time (H.keys w.history_by_id) w v,
  )
  handle_inbound-Holds table delta (snapshot_at_time k time) w q v = absurd q
  handle_inbound-Holds table delta shutdown w q v = absurd q
