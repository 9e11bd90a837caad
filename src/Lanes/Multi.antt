-- ===== src/Lanes/Multi.antt =====
-- src/macros.rs, the form for several snapshots. The types that the macro is given stand at their
-- places in its lists: `S i` is the snapshot at i, `E i` its type of events, and `V j` the type of
-- the event variant at j. What a program declares of them is the record `Declared`.
use contime.Prelude.{ℕ, Bool, false, ◌||◌, ◌==◌, List, [], ◌∷◌, map, if◌then◌else◌, subst}
use contime.Prelude.Int.{ℤ}
use contime.Traits.{Event, ApplyEvent, Snapshot, EventLanes}
use native.Mathlib.Decide.{ℕ_discrete}

pub data SnapshotLanes {ℓ} (S : ℕ → Type ℓ) : Type ℓ where
  in_lane : (i : ℕ) → S i → SnapshotLanes S

pub data VariantLanes {ε} (V : ℕ → Type ε) : Type ε where
  variant : (j : ℕ) → V j → VariantLanes V

-- the traits of the listed types. `apply` and `into` are read at the targets of a variant only;
-- `into` is the variant of that name in the target's own type of events.
pub record Declared {ℓ κ ε} (S : ℕ → Type ℓ) (E : ℕ → Type κ) (V : ℕ → Type ε)
    : Type (ℓ ⊔ κ ⊔ ε) where
  pub snapshot : (i : ℕ) → Snapshot (S i) (E i)
  pub event : (j : ℕ) → Event (V j)
  pub apply : (j i : ℕ) → ApplyEvent (S i) (V j)
  pub into : (j i : ℕ) → V j → E i
  pub first : ℕ → ℕ
  pub others : ℕ → List ℕ

-- what `try_from` gives: the snapshot, or the lane back
pub data TryFrom {ℓ κ} (A : Type ℓ) (B : Type κ) : Type (ℓ ⊔ κ) where
  ok : A → TryFrom A B
  err : B → TryFrom A B

module _ {ℓ} {S : ℕ → Type ℓ} where
  -- `impl TryFrom<SnapshotLanes> for $snapshot`
  unfoldable pub try_from : (i : ℕ) → SnapshotLanes S → TryFrom (S i) (SnapshotLanes S)
  try_from i (in_lane k s) = elim (ℕ_discrete k i) [
    | yes e ↦ ok (subst S e s)
    | no h ↦ err (in_lane k s)
  ]

  -- what the lane or the snapshot that comes back is
  abbrev pub taken : (i : ℕ) → TryFrom (S i) (SnapshotLanes S) → SnapshotLanes S
  taken i (ok s) = in_lane i s
  taken i (err lane) = lane

module _ {ℓ κ ε} {S : ℕ → Type ℓ} {E : ℕ → Type κ} {V : ℕ → Type ε} (D : Declared S E V) where
  abbrev pub contains : List ℕ → ℕ → Bool
  contains [] i = false
  contains (k ∷ ks) i = (k == i) || contains ks i

  abbrev pub targets : ℕ → List ℕ
  targets j = D.first j ∷ D.others j

  abbrev pub is_target : ℕ → ℕ → Bool
  is_target j i = contains (targets j) i

  -- `SnapshotLanes::$target(<$target as Snapshot>::from_event(&snapshot_event))`
  abbrev pub lane_from : (j : ℕ) → V j → ℕ → SnapshotLanes S
  lane_from j e i = in_lane i ((D.snapshot i).from_event (D.into j i e))

  -- `impl Event for EventLanes`
  unfoldable pub lanes_event : Event (VariantLanes V)
  lanes_event = record {
    id = λ v. elim v [ variant j e ↦ (D.event j).id e ];
    time = λ v. elim v [ variant j e ↦ (D.event j).time e ];
    conservative_size = λ v. elim v [ variant j e ↦ (D.event j).conservative_size e ];
  }

  -- `apply_to` on an event and a snapshot: a combination that is not listed changes nothing
  unfoldable pub apply_lane : VariantLanes V → SnapshotLanes S → SnapshotLanes S
  apply_lane (variant j e) (in_lane i s) =
      in_lane i (if is_target j i then (D.apply j i).apply_to e s else s)

  -- `__contime_first_snapshot_id_typed`
  unfoldable pub first_snapshot_id : VariantLanes V → ℕ
  first_snapshot_id (variant j e) = (D.apply j (D.first j)).snapshot_id e

  -- `__contime_first_from_event`
  unfoldable pub first_from_event : VariantLanes V → SnapshotLanes S
  first_from_event (variant j e) = lane_from j e (D.first j)

  unfoldable pub set_lane_time : ℤ → SnapshotLanes S → SnapshotLanes S
  set_lane_time time (in_lane i s) = in_lane i ((D.snapshot i).set_time time s)

  -- `impl Snapshot for SnapshotLanes`
  abbrev pub lanes_snapshot : Snapshot (SnapshotLanes S) (VariantLanes V)
  lanes_snapshot = record {
    event = lanes_event;
    apply = record { snapshot_id = first_snapshot_id; apply_to = apply_lane };
    id = λ lane. elim lane [ in_lane i s ↦ (D.snapshot i).id s ];
    time = λ lane. elim lane [ in_lane i s ↦ (D.snapshot i).time s ];
    set_time = set_lane_time;
    conservative_size = λ lane. elim lane [ in_lane i s ↦ (D.snapshot i).conservative_size s ];
    from_event = first_from_event;
  }

  -- `fn snapshots`: a snapshot for each target, in order
  unfoldable pub target_snapshots : VariantLanes V → List (SnapshotLanes S)
  target_snapshots (variant j e) = map (lane_from j e) (targets j)

  -- `impl EventLanes<SnapshotLanes> for EventLanes`
  abbrev pub many_lanes : EventLanes (SnapshotLanes S) (VariantLanes V)
  many_lanes = record { lane = lanes_snapshot; snapshots = target_snapshots }
