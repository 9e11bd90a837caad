-- ===== src/Examples/Views.antt =====
-- A receiver of lanes as an iterator, on a list of lanes.
use contime.Prelude.{◌≡◌, refl, Option, none, some, List, [], ◌∷◌, arith}
use contime.Prelude.Int.{pos}
use contime.Views.{Stream, IsStream, new, into_iter, items}
use contime.Views.Iteration.{items-into_iter}
use contime.Lanes.{SnapshotLane, snapshot_lane, from_lane}
use contime.Fixtures.{TestSnapshot}
use contime.Examples.Data.{blank}

abbrev Lanes : Type 0
Lanes = List (SnapshotLane TestSnapshot)

abbrev take_first : Lanes → Option (SnapshotLane TestSnapshot × Lanes)
take_first [] = none
take_first (x ∷ xs) = some (x, xs)

abbrev lane_list : Stream Lanes (SnapshotLane TestSnapshot)
lane_list = record { recv = take_first; messages = λ r. r }

lane_list-IsStream : IsStream lane_list
lane_list-IsStream = record {
  recv_next = λ a rest r e. (rest, rw e refl, refl);
  recv_end = λ r e. rw e refl;
}

abbrev two_lanes : Lanes
two_lanes = snapshot_lane blank ∷ snapshot_lane (record blank { time = pos 3 }) ∷ []

-- what a loop over the receiver of two lanes yields
two_items :
    items lane_list from_lane 3 (into_iter (new two_lanes))
    ≡ some (blank ∷ record blank { time = pos 3 } ∷ [])
two_items = items-into_iter lane_list from_lane lane_list-IsStream two_lanes 3 (omega arith)
