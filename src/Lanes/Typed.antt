-- ===== src/Lanes/Typed.antt =====
-- The type of a history's snapshots: the lanes that a history holds and returns are of the type of
-- its first snapshot, whatever events come.
use contime.Prelude.{ℕ, ◌≡◌, refl, ap, ◌∙◌, some, List, All}
use contime.Prelude.Int.{ℤ}
use contime.Channel.{Channel}
use contime.Apply.Values.{Keeps}
use contime.History.{History, new, snapshot_at}
use contime.History.Kept.{Given, answers_kept}
use contime.History.Ledger.{Command, perform_all}
use contime.Lanes.Mapped.{try_from-in_lane}
use contime.Lanes.Multi.{
  SnapshotLanes, in_lane, VariantLanes, variant, Declared, ok, try_from, lanes_snapshot, apply_lane,
  set_lane_time,
}

module _ {ℓ} {S : ℕ → Type ℓ} where
  -- the lane is of the type at a place
  abbrev pub IsOfType : ℕ → SnapshotLanes S → Type ℓ
  IsOfType i lane = (s : S i) × (lane ≡ in_lane i s)

module _ {ℓ κ ε μ} {S : ℕ → Type ℓ} {E : ℕ → Type κ} {V : ℕ → Type ε} (D : Declared S E V)
    {C : Type μ} (F : Channel C) where
  IsOfType-Keeps : (i : ℕ) → Keeps (lanes_snapshot D) (IsOfType i)
  unfolding apply_lane set_lane_time
  IsOfType-Keeps i = record {
    apply_to = λ v lane p. kept v lane p;
    set_time = λ t lane p. timed t lane p;
  }
    where
      kept :
          (v : VariantLanes V) (lane : SnapshotLanes S)
          → IsOfType i lane
          → IsOfType i (apply_lane D v lane)
      kept (variant j e) lane (s, q) = rw q (_, refl)

      timed :
          (t : ℤ) (lane : SnapshotLanes S) → IsOfType i lane → IsOfType i (set_lane_time D t lane)
      timed t lane (s, q) = rw q (_, refl)

  -- A new history of a snapshot of one type takes any list of events of any variant and of
  -- snapshots of that type, without a panic. Every snapshot that a query of it returns is of that
  -- type, so that taking it out of its lane succeeds.
  pub lanes_keep_type :
      (i : ℕ) (s : S i) (now delta : ℤ) (cs : List (Command (SnapshotLanes S) (VariantLanes V)))
      → All (Given (lanes_snapshot D) (IsOfType i)) cs
      → (h : History (SnapshotLanes S) (VariantLanes V) C) × (perform_all
            (lanes_snapshot D)
            F
            cs
            (new (lanes_snapshot D) F (in_lane i s) now delta).0
          ≡ some h)
        × ((t : ℤ) (lane : SnapshotLanes S) (c : C)
            → snapshot_at (lanes_snapshot D) F t h ≡ some (lane, c)
            → (u : S i) × (lane ≡ in_lane i u) × (try_from i lane ≡ ok u))
  lanes_keep_type i s now delta cs given =
      let (h, e, typed) =
        answers_kept (lanes_snapshot D) F (IsOfType i) (IsOfType-Keeps i) (in_lane i s) now delta cs
          (s, refl) given in
      (
        h,
        e,
        λ t lane c q.
            let (u, g) = typed t lane c q in (u, g, ap (try_from i) g ∙ (try_from-in_lane S i).1 u),
      )
