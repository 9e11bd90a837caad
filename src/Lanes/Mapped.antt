-- ===== src/Lanes/Mapped.antt =====
-- src/macros.rs, the form for several snapshots: in a history of lanes each snapshot sees the
-- events that are mapped to it, and no others.
use contime.Prelude.{
  ℕ, ◌≡◌, refl, sym, ap, ◌∙◌, false, some, [], ◌∷◌, if◌then◌else◌, Bool-cases, inl, inr, subst,
}
use contime.Prelude.Int.{ℤ}
use contime.Key.{ContimeKey, key_ord}
use contime.BTreeMap.{BTreeMap, contains_key}
use contime.BTreeMap.Ranges.{before}
use contime.Channel.{Channel}
use contime.Traits.{Snapshot, SetsTime, IgnoresTime}
use contime.History.{History, apply_all, snapshot_at}
use contime.History.Valid.{IsValid}
use contime.History.Query.{query_key, state_at, snapshot_at_exact}
use contime.Lanes.Multi.{
  SnapshotLanes, in_lane, VariantLanes, variant, Declared, ok, try_from, taken, is_target,
  apply_lane, set_lane_time, lanes_snapshot,
}
use native.Mathlib.Decide.{ℕ_discrete}
use native.Mathlib.Nat.{ℕ_set}
use mathlib.Core.Path.{subst_refl}

module _ {ℓ} (S : ℕ → Type ℓ) where
  in_lane-subst :
      (i k : ℕ) (e : k ≡ i) (s : S k)
      → ◌≡◌ {A = SnapshotLanes S} (in_lane i (subst S e s)) (in_lane k s)
  in_lane-subst i k e s = sym (λ r. in_lane (e r) (coe 0 r (x. S (e x)) s))

  -- Turning a lane into a snapshot of some type loses nothing: what comes back, the snapshot or
  -- the lane, is the lane. And a snapshot that was put into its lane comes out again.
  pub try_from-in_lane :
      (i : ℕ)
      → ((lane : SnapshotLanes S) → taken i (try_from i lane) ≡ lane)
        × ((s : S i) → try_from {S = S} i (in_lane i s) ≡ ok s)
  unfolding try_from
  try_from-in_lane i = (back, out)
    where
      back : (lane : SnapshotLanes S) → taken i (try_from i lane) ≡ lane
      back (in_lane k s) = by_test (ℕ_discrete k i) refl
        where
          by_test :
              (d : Dec (k ≡ i))
              → ℕ_discrete k i ≡ d
              → ◌≡◌ {A = SnapshotLanes S} (taken i (try_from i (in_lane k s))) (in_lane k s)
          by_test (yes e) q = rw (try_from, q) (in_lane-subst i k e s)
          by_test (no h) q = rw (try_from, q) refl

      out : (s : S i) → try_from {S = S} i (in_lane i s) ≡ ok s
      out s = by_test (ℕ_discrete i i) refl
        where
          by_test : (d : Dec (i ≡ i)) → ℕ_discrete i i ≡ d → try_from {S = S} i (in_lane i s) ≡ ok s
          by_test (yes e) q =
              rw (try_from, q) (ap ok (ap (λ p. subst S p s) (ℕ_set i i e refl) ∙ subst_refl S s))
          by_test (no h) q = absurd (h refl)

module _ {ℓ κ ε} {S : ℕ → Type ℓ} {E : ℕ → Type κ} {V : ℕ → Type ε} (D : Declared S E V) where
  -- the effect of the events that are mapped to the snapshot at a place, and of no others
  abbrev pub apply_mapped : (i : ℕ) → S i → BTreeMap ContimeKey (VariantLanes V) → S i
  apply_mapped i s [] = s
  apply_mapped i s ((key, variant j e) ∷ events) =
      if is_target D j i
      then apply_mapped i ((D.apply j i).apply_to e s) events
      else apply_mapped i s events

  apply_all-mapped :
      (i : ℕ) (s : S i) (events : BTreeMap ContimeKey (VariantLanes V))
      → apply_all (lanes_snapshot D) (in_lane i s) events ≡ in_lane i (apply_mapped i s events)
  unfolding apply_all apply_lane
  apply_all-mapped i s [] = refl
  apply_all-mapped i s ((key, variant j e) ∷ events) = elim (Bool-cases (is_target D j i)) [
    | inl yes_mapped ↦ rw yes_mapped (apply_all-mapped i ((D.apply j i).apply_to e s) events)
    | inr not_mapped ↦ rw not_mapped (apply_all-mapped i s events)
  ]

  -- no event of any variant minds the time of a snapshot
  abbrev pub AllIgnoreTime : Type (ℓ ⊔ ε)
  AllIgnoreTime =
      (j i : ℕ) (e : V j) (t : ℤ) (s : S i)
      → (D.apply j i).apply_to e ((D.snapshot i).set_time t s)
        ≡ (D.snapshot i).set_time t ((D.apply j i).apply_to e s)

  pub lanes-SetsTime : ((i : ℕ) → SetsTime (D.snapshot i)) → SetsTime (lanes_snapshot D)
  unfolding set_lane_time
  lanes-SetsTime sets = record {
    time-set_time = by_time;
    id-set_time = by_id;
    set_time-set_time = by_both;
  }
    where
      T : Snapshot (SnapshotLanes S) (VariantLanes V)
      T = lanes_snapshot D

      by_time : (t : ℤ) (lane : SnapshotLanes S) → T.time (T.set_time t lane) ≡ t
      by_time t (in_lane i s) = (sets i).time-set_time t s

      by_id : (t : ℤ) (lane : SnapshotLanes S) → T.id (T.set_time t lane) ≡ T.id lane
      by_id t (in_lane i s) = (sets i).id-set_time t s

      by_both :
          (t u : ℤ) (lane : SnapshotLanes S) → T.set_time t (T.set_time u lane) ≡ T.set_time t lane
      by_both t u (in_lane i s) = ap (in_lane i) ((sets i).set_time-set_time t u s)

  apply_lane-set_time :
      AllIgnoreTime
      → (v : VariantLanes V) (t : ℤ) (lane : SnapshotLanes S)
      → apply_lane D v (set_lane_time D t lane) ≡ set_lane_time D t (apply_lane D v lane)
  unfolding apply_lane set_lane_time
  apply_lane-set_time ignore (variant j e) t (in_lane i s) = elim (Bool-cases (is_target D j i)) [
    | inl yes_mapped ↦ rw yes_mapped (ap (in_lane i) (ignore j i e t s))
    | inr not_mapped ↦ rw not_mapped refl
  ]

  pub lanes-IgnoresTime : AllIgnoreTime → IgnoresTime (lanes_snapshot D)
  lanes-IgnoresTime ignore = record { apply_to-set_time = apply_lane-set_time ignore }

  -- Where `set_time` of each snapshot sets only the time and the effect of each event ignores it:
  -- on a valid history of lanes whose base is a snapshot of some type, a query whose key no event
  -- has does not panic, and returns a snapshot of that type: what the events before the query that
  -- are mapped to the type, and no others, make of the base.
  pub mapped_query {μ} :
      {C : Type μ} (F : Channel C)
      → ((i : ℕ) → SetsTime (D.snapshot i))
      → AllIgnoreTime
      → (t : ℤ) (i : ℕ) (s : S i) (h : History (SnapshotLanes S) (VariantLanes V) C)
      → IsValid (lanes_snapshot D) F h
      → h.base_snapshot ≡ in_lane i s
      → contains_key (query_key t h.snapshot_id) h.events ≡ false
      → snapshot_at (lanes_snapshot D) F t h
        ≡ some (
          in_lane i (
              (D.snapshot i).set_time t
                (apply_mapped i s (before (query_key t h.snapshot_id) h.events))),
          h.reconciliation,
        )
  unfolding state_at set_lane_time
  mapped_query F sets ignore t i s h v base free =
      let q = query_key t h.snapshot_id in
      snapshot_at_exact (lanes_snapshot D) (lanes-SetsTime sets) (lanes-IgnoresTime ignore) F t h v
        free
      ∙ ap
          (λ b. some (
            set_lane_time D t (apply_all (lanes_snapshot D) b (before q h.events)),
            h.reconciliation,
          ))
          base
      ∙ ap (λ lane. some (set_lane_time D t lane, h.reconciliation))
          (apply_all-mapped i s (before q h.events))
