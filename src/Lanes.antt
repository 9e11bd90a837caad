-- ===== src/Lanes.antt =====
-- src/macros.rs, the form for one snapshot: the enums `SnapshotLanes` and `EventLanes` with one
-- variant each, and their traits, which hand every call on.
pub mod Same
pub mod Multi
pub mod Mapped
pub mod Typed
use contime.Prelude.{List, [], ◌∷◌}
use contime.Traits.{Event, ApplyEvent, Snapshot, EventLanes}

pub data SnapshotLane {ℓ} (S : Type ℓ) : Type ℓ where
  snapshot_lane : S → SnapshotLane S

pub data EventLane {κ} (E : Type κ) : Type κ where
  event_lane : E → EventLane E

-- `From<SnapshotLanes> for $snapshot` and `From<$snapshot> for SnapshotLanes`
abbrev pub from_lane {ℓ} : {S : Type ℓ} → SnapshotLane S → S
from_lane (snapshot_lane snapshot) = snapshot

abbrev pub to_lane {ℓ} : {S : Type ℓ} → S → SnapshotLane S
to_lane snapshot = snapshot_lane snapshot

abbrev pub of_event {κ} : {E : Type κ} → EventLane E → E
of_event (event_lane event) = event

module _ {ℓ κ} {S : Type ℓ} {E : Type κ} (T : Snapshot S E) where
  -- `impl Event for EventLanes`
  abbrev pub lane_event : Event (EventLane E)
  lane_event = record {
    id = λ e. T.event.id (of_event e);
    time = λ e. T.event.time (of_event e);
    conservative_size = λ e. T.event.conservative_size (of_event e);
  }

  -- `impl ApplyEvent<SnapshotLanes> for EventLanes`
  abbrev pub lane_apply : ApplyEvent (SnapshotLane S) (EventLane E)
  lane_apply = record {
    snapshot_id = λ e. T.apply.snapshot_id (of_event e);
    apply_to = λ e s. snapshot_lane (T.apply.apply_to (of_event e) (from_lane s));
  }

  -- `impl Snapshot for SnapshotLanes`
  abbrev pub lane_snapshot : Snapshot (SnapshotLane S) (EventLane E)
  lane_snapshot = record {
    event = lane_event;
    apply = lane_apply;
    id = λ s. T.id (from_lane s);
    time = λ s. T.time (from_lane s);
    set_time = λ t s. snapshot_lane (T.set_time t (from_lane s));
    conservative_size = λ s. T.conservative_size (from_lane s);
    from_event = λ e. snapshot_lane (T.from_event (of_event e));
  }

  -- `impl EventLanes<SnapshotLanes> for EventLanes`
  abbrev pub single_lanes : EventLanes (SnapshotLane S) (EventLane E)
  single_lanes = record {
    lane = lane_snapshot;
    snapshots = λ e. to_lane (T.from_event (of_event e)) ∷ [];
  }
