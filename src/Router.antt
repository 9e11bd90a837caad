-- ===== src/Router.antt =====
-- src/router.rs: the budget, and the choice of the worker by the hash of the snapshot id. The hash
-- function (`ahash::RandomState`) and the channel to a worker (`flume`) are parameters.
pub mod Posting
pub mod Sending
pub mod Budget
pub mod Broadcast
pub mod Calls
use contime.Prelude.{
  ℕ, zero, suc, ◌+◌, ◌%◌, ◌^◌, ◌≡◌, Bool, true, false, Option, none, some, List, [], ◌∷◌, ◌++◌, leb,
  get_elem?, set, length, ◌>>=◌, if◌then◌else◌,
}
use contime.Prelude.Int.{ℤ}
use contime.Traits.{Snapshot, EventLanes}
use contime.Worker.{WorkerInbound, event, snapshot, snapshot_at_time, advance_time}

pub data RouterError : Type 0 where
  memory_full : RouterError
  error : RouterError

-- the sending end of a worker's channel: `send` fails where the worker has gone
pub record Inbox {ℓ ν} (Q : Type ν) (A : Type ℓ) : Type (ℓ ⊔ ν) where
  pub send : A → Q → Option Q

-- the result of a call, with the router that it leaves; a panic is its own outcome
pub data Outcome {ℓ κ} (X : Type 0) (R : Type ℓ) (A : Type κ) : Type (ℓ ⊔ κ) where
  ok : A → R → Outcome X R A
  err : X → R → Outcome X R A
  panics : Outcome X R A

-- `Router`, with the sending end of each worker, and the number of channels for replies whose
-- sending end has gone out with a message
pub record Router {ν} (Q : Type ν) : Type ν where
  pub workers : List Q
  pub memory_budget : ℕ
  pub memory_usage : ℕ
  pub channels : ℕ

-- the receiving end of a channel for one reply (`bounded(1)`): the number of the channel, and the
-- message that its sending end has gone out with, and to which worker
pub record Receiver {ℓ κ} (S : Type ℓ) (E : Type κ) : Type (ℓ ⊔ κ) where
  pub number : ℕ
  pub worker : ℕ
  pub inbound : WorkerInbound S E

module _ {ℓ κ ν} {S : Type ℓ} {E : Type κ} {Q : Type ν} (L : EventLanes S E)
    (I : Inbox Q (WorkerInbound S E)) (hash_one : ℕ → ℕ) where
  -- `hash as usize % self.workers.len()`, which panics where there is no worker
  unfoldable pub worker_index : Router Q → ℕ → Option ℕ
  worker_index r snapshot_id = elim (length r.workers) [
    | zero ↦ none
    | suc n ↦ some (hash_one snapshot_id % suc n)
  ]

  -- a message, with a new channel for its reply, to the worker at an index
  unfoldable pub send_to :
      ℕ → WorkerInbound S E → Router Q → Outcome RouterError (Router Q) (Receiver S E)
  send_to index inbound r = elim (get_elem? r.workers index) [
    | none ↦ panics
    | some worker ↦ elim (I.send inbound worker) [
      | none ↦ err error r
      | some worker' ↦
          ok (record { number = r.channels; worker = index; inbound = inbound })
            (record r { workers = set r.workers index worker'; channels = suc r.channels })
    ]
  ]

  unfoldable pub route :
      ℕ → WorkerInbound S E → Router Q → Outcome RouterError (Router Q) (Receiver S E)
  route snapshot_id inbound r = elim (worker_index r snapshot_id) [
    | none ↦ panics
    | some index ↦ send_to index inbound r
  ]

  -- the loop over `event_lane.snapshots()`; an early return keeps what was sent before it
  unfoldable pub send_to_each :
      E
      → List S
      → Router Q
      → List (Receiver S E)
      → Outcome RouterError (Router Q) (List (Receiver S E))
  send_to_each event_lane [] r rxs = ok rxs r
  send_to_each event_lane (lane ∷ rest) r rxs =
      elim (route (L.lane.id lane) (event (L.lane.id lane) event_lane lane) r) [
        | ok rx r' ↦ send_to_each event_lane rest r' (rxs ++ rx ∷ [])
        | err e r' ↦ err e r'
        | panics ↦ panics
      ]

  -- `usage + size >= budget`, on u64
  abbrev pub over_budget : ℕ → Router Q → Bool
  over_budget size r = leb r.memory_budget ((r.memory_usage + size) % 2 ^ 64)

  unfoldable pub send_event : E → Router Q → Outcome RouterError (Router Q) (List (Receiver S E))
  send_event event_lane r =
      if over_budget (L.lane.event.conservative_size event_lane) r
      then err memory_full r
      else send_to_each event_lane (L.snapshots event_lane) r []

  unfoldable pub send_snapshot : S → Router Q → Outcome RouterError (Router Q) (List (Receiver S E))
  send_snapshot snapshot_lane r =
      if over_budget (L.lane.conservative_size snapshot_lane) r
      then err memory_full r
      else elim (route (L.lane.id snapshot_lane) (snapshot snapshot_lane) r) [
        | ok rx r' ↦ ok (rx ∷ []) r'
        | err e r' ↦ err e r'
        | panics ↦ panics
      ]

  unfoldable pub query_at : ℤ → ℕ → Router Q → Outcome RouterError (Router Q) (Receiver S E)
  query_at time snapshot_id r = route snapshot_id (snapshot_at_time snapshot_id time) r

  -- the loop over the workers of `send_advance`, from an index on
  unfoldable pub advance_workers :
      ℤ
      → ℕ
      → ℕ
      → Router Q
      → List (Receiver S E)
      → Outcome RouterError (Router Q) (List (Receiver S E))
  advance_workers time zero index r rxs = ok rxs r
  advance_workers time (suc left) index r rxs = elim (send_to index (advance_time time) r) [
    | ok rx r' ↦ advance_workers time left (index + 1) r' (rxs ++ rx ∷ [])
    | err e r' ↦ err e r'
    | panics ↦ panics
  ]

  unfoldable pub send_advance : ℤ → Router Q → Outcome RouterError (Router Q) (List (Receiver S E))
  send_advance time r = advance_workers time (length r.workers) 0 r []
