-- ===== src/Router/Broadcast.antt =====
-- src/router.rs: `send_advance`, which sends to every worker.
use contime.Prelude.{
  ℕ, zero, suc, ◌+◌, ◌≡◌, refl, sym, ap, List, [], ◌∷◌, ◌++◌, append-nil, length, inl, inr, arith,
}
use contime.Prelude.Int.{ℤ}
use contime.Traits.{EventLanes}
use contime.Worker.{WorkerInbound, advance_time}
use contime.Router.{Router, ok, Receiver, advance_workers, send_advance}
use contime.System.{Mailbox, IsFifo}
use contime.Router.Posting.{Posting, Posted-nil}
use contime.Router.Sending.{PostingAfter, PostingAfter-step, send_to-Sending}

module _ {ℓ κ ν} {S : Type ℓ} {E : Type κ} {Q : Type ν} (L : EventLanes S E)
    (B : Mailbox Q (WorkerInbound S E)) (fifo : IsFifo B) (hash_one : ℕ → ℕ) where
  -- one message for each of some workers, from an index on
  abbrev pub advance_posts : ℤ → ℕ → ℕ → List (ℕ × WorkerInbound S E)
  advance_posts time zero i = []
  advance_posts time (suc left) i = (i, advance_time time) ∷ advance_posts time left (i + 1)

  advance_workers-Posting :
      (time : ℤ) (left i : ℕ) (r : Router Q) (rxs : List (Receiver S E))
      → i + left ≡ length r.workers
      → PostingAfter L B fifo hash_one rxs
          (advance_posts time left i)
          r
          (advance_workers L B.inbox hash_one time left i r rxs)
  unfolding advance_workers
  advance_workers-Posting time zero i r rxs c =
      inl (r, ap (λ l. ok l r) (sym (append-nil rxs)), Posted-nil L B fifo hash_one r)
  advance_workers-Posting time (suc left) i r rxs c =
      elim (send_to-Sending L B fifo hash_one i (advance_time time) r (omega (arith, c))) [
        | inl (mid, taken, p) ↦
            PostingAfter-step L B fifo hash_one rxs (i, advance_time time)
              (advance_posts time left (i + 1)) r mid _ p
              (rw (advance_workers, taken)
                (advance_workers-Posting time left (i + 1) mid
                  (rxs
                    ++ record { number = r.channels; worker = i; inbound = advance_time time } ∷ [])
                  (omega (arith, c, p.like.workers))))
        | inr (failed, refuses) ↦ inr (
          r,
          rw (advance_workers, failed) refl,
          (
            [],
            (i, advance_time time),
            advance_posts time left (i + 1),
            refl,
            Posted-nil L B fifo hash_one r,
            refuses,
          ),
        )
      ]

  -- `send_advance` puts one message with the time behind what waits at each of the workers, and
  -- nothing else, whatever the budget; the caller has a receiver of its own for each worker, in
  -- their order. If a worker has gone, the call fails there, and the workers before it have the
  -- message.
  pub send_advance_to_all :
      (time : ℤ) (r : Router Q)
      → Posting L B fifo hash_one
          (advance_posts time (length r.workers) 0)
          r
          (send_advance L B.inbox hash_one time r)
  unfolding send_advance
  send_advance_to_all time r = advance_workers-Posting time (length r.workers) 0 r [] (omega arith)
