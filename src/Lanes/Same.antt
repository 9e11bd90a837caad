-- ===== src/Lanes/Same.antt =====
-- A history of lanes holds what a history of the bare snapshot holds.
use contime.Prelude.{◌≡◌, refl, ap, ◌∙◌, some, false, [], ◌∷◌, map, Bool-cases, inl, inr}
use contime.Prelude.Int.{ℤ}
use contime.Key.{ContimeKey}
use contime.BTreeMap.{BTreeMap, Bound, unbounded, excluded, entries, in_range, contains_key}
use contime.BTreeMap.Ranges.{before}
use contime.Channel.{Channel}
use contime.Key.{key_ord}
use contime.Traits.{Snapshot, SetsTime, IgnoresTime}
use contime.History.{History, apply_all, snapshot_at}
use contime.History.Valid.{IsValid}
use contime.History.Query.{query_key, state_at, snapshot_at_exact}
use contime.Apply.{replay, step}
use contime.Lanes.{
  SnapshotLane, snapshot_lane, EventLane, from_lane, to_lane, of_event, lane_snapshot,
}

module _ {ℓ κ} {S : Type ℓ} {E : Type κ} (T : Snapshot S E) where
  pub lane-SetsTime : SetsTime T → SetsTime (lane_snapshot T)
  lane-SetsTime sets = record {
    time-set_time = λ t s. sets.time-set_time t (from_lane s);
    id-set_time = λ t s. sets.id-set_time t (from_lane s);
    set_time-set_time = λ t u s. ap snapshot_lane (sets.set_time-set_time t u (from_lane s));
  }

  pub lane-IgnoresTime : IgnoresTime T → IgnoresTime (lane_snapshot T)
  lane-IgnoresTime ignores = record {
    apply_to-set_time =
        λ e t s. ap snapshot_lane (ignores.apply_to-set_time (of_event e) t (from_lane s));
  }

  abbrev pub bare : BTreeMap ContimeKey (EventLane E) → BTreeMap ContimeKey E
  bare = map (λ e. (e.0, of_event e.1))

  bare-entries :
      (lo hi : Bound ContimeKey) (m : BTreeMap ContimeKey (EventLane E))
      → bare (entries lo hi m) ≡ entries lo hi (bare m)
  bare-entries lo hi [] = refl
  bare-entries lo hi ((k, e) ∷ m) = elim (Bool-cases (in_range lo hi k)) [
    | inl q ↦ rw (bare, q) (ap (λ l. (k, of_event e) ∷ l) (bare-entries lo hi m))
    | inr q ↦ rw (bare, q) (bare-entries lo hi m)
  ]

  -- Both replays, with the time set behind each event and with it left alone, give on lanes the
  -- lane of what they give on the bare snapshot and events.
  pub replay-bare :
      (s : SnapshotLane S) (events : BTreeMap ContimeKey (EventLane E))
      → (from_lane (replay (lane_snapshot T) s events) ≡ replay T (from_lane s) (bare events))
        × (from_lane (apply_all (lane_snapshot T) s events)
            ≡ apply_all T (from_lane s) (bare events))
  unfolding replay apply_all step
  replay-bare s [] = (refl, refl)
  replay-bare s ((k, e) ∷ events) = (
    (replay-bare (step (lane_snapshot T) s e) events).0,
    (replay-bare (snapshot_lane (T.apply.apply_to (of_event e) (from_lane s))) events).1,
  )

  -- Where `set_time` sets only the time and the effect of an event ignores it: on a valid history
  -- of lanes a query whose key no event has does not panic, and returns the lane of what the bare
  -- events before it make of the bare base.
  pub lane_query {μ} :
      {C : Type μ} (F : Channel C)
      → SetsTime T
      → IgnoresTime T
      → (t : ℤ) (h : History (SnapshotLane S) (EventLane E) C) → IsValid (lane_snapshot T) F h
      → contains_key (query_key t h.snapshot_id) h.events ≡ false
      → snapshot_at (lane_snapshot T) F t h
        ≡ some (
          to_lane (state_at T (from_lane h.base_snapshot) (bare h.events) h.snapshot_id t),
          h.reconciliation,
        )
  unfolding state_at
  lane_query F sets ignores t h v free =
      let q = query_key t h.snapshot_id in
      snapshot_at_exact (lane_snapshot T) (lane-SetsTime sets) (lane-IgnoresTime ignores) F t h v
        free
      ∙ ap (λ s. some (to_lane (T.set_time t s), h.reconciliation))
          ((replay-bare h.base_snapshot (before q h.events)).1
            ∙ ap (apply_all T (from_lane h.base_snapshot))
                (bare-entries unbounded (excluded q) h.events))
