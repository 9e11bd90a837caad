-- ===== src/Router/Budget.antt =====
-- src/router.rs: what the budget lets through.
use contime.Prelude.{
  ℕ, ◌+◌, ◌<◌, ◌≤◌, ◌⊎◌, ◌^◌, ◌≡◌, refl, false, List, [], ◌∷◌, length, Bool-cases, inl, inr, arith,
}
use contime.Traits.{EventLanes}
use contime.Worker.{WorkerInbound, snapshot}
use contime.Router.{
  Router, RouterError, Outcome, err, memory_full, Receiver, over_budget, send_event, send_snapshot,
}
use contime.System.{Mailbox, IsFifo}
use contime.Router.Posting.{home, Posting, Posted-nil}
use contime.Router.Sending.{posts_of, route-Sending, send_to_each-Posting}

module _ {ℓ κ ν} {S : Type ℓ} {E : Type κ} {Q : Type ν} (L : EventLanes S E)
    (B : Mailbox Q (WorkerInbound S E)) (fifo : IsFifo B) (hash_one : ℕ → ℕ) where
  -- the messages that `send_event` is to send
  abbrev pub event_posts : E → Router Q → List (ℕ × WorkerInbound S E)
  event_posts e r = posts_of L B fifo hash_one (length r.workers) e (L.snapshots e)

  -- the whole budget is used: the call is refused, and nothing is sent
  abbrev pub Refused :
      ℕ → Router Q → Outcome RouterError (Router Q) (List (Receiver S E)) → Type (ℓ ⊔ κ ⊔ ν)
  Refused size r result = (r.memory_budget ≤ r.memory_usage + size) × (result ≡ err memory_full r)

  event-Posting :
      (e : E) (r : Router Q)
      → 0 < length r.workers
      → over_budget L B.inbox hash_one (L.lane.event.conservative_size e) r ≡ false
      → Posting L B fifo hash_one (event_posts e r) r (send_event L B.inbox hash_one e r)
  unfolding send_event
  event-Posting e r h free =
      rw free
        (send_to_each-Posting L B fifo hash_one e (L.snapshots e) r [] (length r.workers) refl h)

  -- As long as use and size add up to less than 2^64 and there is a worker: an event is refused,
  -- with nothing sent, exactly where use and size reach the budget. Otherwise a message with the
  -- event goes out for each of its snapshots in turn, and waits behind what waits at the worker of
  -- the snapshot's id; the caller has a receiver of its own for each. If a worker has gone, the
  -- call fails there, and the messages before that one are in the channels.
  pub send_event_within_budget :
      (e : E) (r : Router Q)
      → 0 < length r.workers
      → r.memory_usage + L.lane.event.conservative_size e < 2 ^ 64
      → Refused (L.lane.event.conservative_size e) r (send_event L B.inbox hash_one e r)
        ⊎ ((r.memory_usage + L.lane.event.conservative_size e < r.memory_budget)
            × Posting L B fifo hash_one (event_posts e r) r (send_event L B.inbox hash_one e r))
  unfolding send_event
  send_event_within_budget e r h small =
      let size = L.lane.event.conservative_size e in
      elim (Bool-cases (over_budget L B.inbox hash_one size r)) [
        | inl full ↦ inl (ground arith, rw full refl)
        | inr free ↦ inr (ground arith, event-Posting e r h free)
      ]

  -- Where use and size add up to 2^64 exactly, the budget is not 0 and there is a worker, an event
  -- is not refused, however far the use is beyond the budget: its messages go into the channels,
  -- up to the first worker that has gone.
  pub send_event_wraps :
      (e : E) (r : Router Q)
      → 0 < length r.workers
      → r.memory_usage + L.lane.event.conservative_size e ≡ 2 ^ 64
      → 0 < r.memory_budget
      → Posting L B fifo hash_one (event_posts e r) r (send_event L B.inbox hash_one e r)
  send_event_wraps e r h wraps some_budget = event-Posting e r h (rw wraps (ground arith))

  -- the message that `send_snapshot` is to send
  abbrev pub snapshot_posts : S → Router Q → List (ℕ × WorkerInbound S E)
  snapshot_posts s r = (home L B fifo hash_one r (L.lane.id s), snapshot s) ∷ []

  -- As long as use and size add up to less than 2^64 and there is a worker: a snapshot is refused,
  -- with nothing sent, exactly where use and size reach the budget. Otherwise a message with the
  -- snapshot waits behind what waits at the worker of its id, and nothing else has changed in the
  -- channels, or the call fails, since that worker has gone.
  pub send_snapshot_within_budget :
      (s : S) (r : Router Q)
      → 0 < length r.workers
      → r.memory_usage + L.lane.conservative_size s < 2 ^ 64
      → Refused (L.lane.conservative_size s) r (send_snapshot L B.inbox hash_one s r)
        ⊎ ((r.memory_usage + L.lane.conservative_size s < r.memory_budget)
            × Posting L B fifo hash_one
                (snapshot_posts s r)
                r
                (send_snapshot L B.inbox hash_one s r))
  unfolding send_snapshot
  send_snapshot_within_budget s r h small =
      let size = L.lane.conservative_size s in
      let id = L.lane.id s in
      elim (Bool-cases (over_budget L B.inbox hash_one size r)) [
        | inl full ↦ inl (ground arith, rw full refl)
        | inr free ↦ inr (
          ground arith,
          elim (route-Sending L B fifo hash_one id (snapshot s) r h) [
            | inl (r', taken, p) ↦ inl (r', rw (free, taken) refl, p)
            | inr (failed, refuses) ↦ inr (
              r,
              rw (free, failed) refl,
              (
                [],
                (home L B fifo hash_one r id, snapshot s),
                [],
                refl,
                Posted-nil L B fifo hash_one r,
                refuses,
              ),
            )
          ],
        )
      ]
