-- ===== src/Router/Sending.antt =====
-- src/router.rs: a single `send` to a worker, and the loop over the snapshots of an event.
use contime.Prelude.{
  ℕ, zero, suc, ◌%◌, ◌<◌, ◌⊎◌, ◌≡◌, refl, ap, sym, ◌∙◌, none, some, List, [], ◌∷◌, ◌++◌,
  append_assoc, append-nil, map, get_elem?-lt, length, Option-cases, inl, inr, arith,
}
use contime.Traits.{EventLanes}
use contime.Worker.{WorkerInbound, event}
use contime.Router.{
  Router, RouterError, Outcome, ok, err, error, Receiver, worker_index, send_to, route,
  send_to_each,
}
use contime.System.{Mailbox, IsFifo}
use contime.Router.Posting.{
  receivers, home, Posted, Refuses, Stops, Posted-nil, Posted-trans, sent, sent-Posted,
}

mod-lt : (a n : ℕ) → 0 < n → a % n < n
mod-lt a n h = omega arith

module _ {ℓ κ ν} {S : Type ℓ} {E : Type κ} {Q : Type ν} (L : EventLanes S E)
    (B : Mailbox Q (WorkerInbound S E)) (fifo : IsFifo B) (hash_one : ℕ → ℕ) where
  worker_index-home :
      (r : Router Q) (snapshot_id : ℕ)
      → 0 < length r.workers
      → worker_index L B.inbox hash_one r snapshot_id ≡ some (home L B fifo hash_one r snapshot_id)
  unfolding worker_index
  worker_index-home r snapshot_id h = at_length (length r.workers) h
    where
      at_length :
          (n : ℕ)
          → 0 < n
          → elim n [ zero ↦ none | suc m ↦ some (hash_one snapshot_id % suc m) ]
            ≡ some (hash_one snapshot_id % n)
      at_length zero h = absurd (omega arith)
      at_length (suc n) h = refl

  -- one message: it is taken, and its caller has the receiver of its channel, or it is refused
  abbrev pub Sending :
      ℕ × WorkerInbound S E
      → Router Q
      → Outcome RouterError (Router Q) (Receiver S E)
      → Type (ℓ ⊔ κ ⊔ ν)
  Sending post r result =
      ((r' : Router Q) × (result
          ≡ ok (record { number = r.channels; worker = post.0; inbound = post.1 }) r')
        × Posted L B fifo hash_one (post ∷ []) r r')
      ⊎ ((result ≡ err error r) × Refuses L B fifo hash_one post r)

  pub send_to-Sending :
      (i : ℕ) (inbound : WorkerInbound S E) (r : Router Q)
      → i < length r.workers
      → Sending (i, inbound) r (send_to L B.inbox hash_one i inbound r)
  unfolding send_to
  send_to-Sending i inbound r h =
      let (q, found) = get_elem?-lt r.workers i h in
      elim (Option-cases (B.inbox.send inbound q)) [
        | inl gone ↦ inr (rw (send_to, found) (rw gone refl), (q, found, gone))
        | inr (q', taken) ↦ inl (
          sent L B fifo hash_one i q' r,
          rw (send_to, found) (rw taken refl),
          sent-Posted L B fifo hash_one i inbound r q q' found taken,
        )
      ]

  pub route-Sending :
      (snapshot_id : ℕ) (inbound : WorkerInbound S E) (r : Router Q)
      → 0 < length r.workers
      → Sending
          (home L B fifo hash_one r snapshot_id, inbound)
          r
          (route L B.inbox hash_one snapshot_id inbound r)
  unfolding route
  route-Sending snapshot_id inbound r h =
      rw (route, worker_index-home r snapshot_id h)
        (send_to-Sending (home L B fifo hash_one r snapshot_id) inbound r
          (mod-lt (hash_one snapshot_id) _ h))

  -- the messages of an event to its snapshots, with a number of workers
  abbrev post_of : ℕ → E → S → ℕ × WorkerInbound S E
  post_of n e s = (hash_one (L.lane.id s) % n, event (L.lane.id s) e s)

  abbrev pub posts_of : ℕ → E → List S → List (ℕ × WorkerInbound S E)
  posts_of n e lanes = map (post_of n e) lanes

  -- `Posting`, after other messages whose receivers the caller has
  abbrev pub PostingAfter :
      List (Receiver S E)
      → List (ℕ × WorkerInbound S E)
      → Router Q
      → Outcome RouterError (Router Q) (List (Receiver S E))
      → Type (ℓ ⊔ κ ⊔ ν)
  PostingAfter rxs posts r result =
      ((r' : Router Q) × (result ≡ ok (rxs ++ receivers r.channels posts) r')
        × Posted L B fifo hash_one posts r r')
      ⊎ ((r' : Router Q) × (result ≡ err error r') × Stops L B fifo hash_one posts r r')

  pub PostingAfter-step :
      (rxs : List (Receiver S E)) (post : ℕ × WorkerInbound S E)
      (posts : List (ℕ × WorkerInbound S E)) (r mid : Router Q)
      (result : Outcome RouterError (Router Q) (List (Receiver S E)))
      → Posted L B fifo hash_one (post ∷ []) r mid
      → PostingAfter
          (rxs ++ record { number = r.channels; worker = post.0; inbound = post.1 } ∷ [])
          posts
          mid
          result
      → PostingAfter rxs (post ∷ posts) r result
  PostingAfter-step rxs (j, m) posts r mid result p (inl (r', e, q)) = inl (
    r',
    e
        ∙ ap (λ l. ok l r')
            (append_assoc rxs (record { number = r.channels; worker = j; inbound = m } ∷ [])
                (receivers mid.channels posts)
              ∙ ap
                  (λ n.
                    rxs
                    ++ record { number = r.channels; worker = j; inbound = m } ∷ receivers n posts)
                  next),
    Posted-trans L B fifo hash_one ((j, m) ∷ []) posts p q,
  )
    where
      next : mid.channels ≡ suc r.channels
      next = omega (arith, p.channels)
  PostingAfter-step rxs (j, m) posts r mid result p
        (inr (r', e, (pre, post, more, split, q, refuses))) =
      inr (
        r',
        e,
        (
          (j, m) ∷ pre,
          post,
          more,
          ap (λ l. (j, m) ∷ l) split,
          Posted-trans L B fifo hash_one ((j, m) ∷ []) pre p q,
          refuses,
        ),
      )

  pub send_to_each-Posting :
      (e : E) (lanes : List S) (r : Router Q) (rxs : List (Receiver S E)) (n : ℕ)
      → length r.workers ≡ n
      → 0 < n
      → PostingAfter rxs (posts_of n e lanes) r (send_to_each L B.inbox hash_one e lanes r rxs)
  unfolding send_to_each
  send_to_each-Posting e [] r rxs n c h =
      inl (r, ap (λ l. ok l r) (sym (append-nil rxs)), Posted-nil L B fifo hash_one r)
  send_to_each-Posting e (s ∷ lanes) r rxs n c h =
      let id = L.lane.id s in
      let post = post_of n e s in
      elim (rw c at (route-Sending id (event id e s) r (rw c h))) [
        | inl (mid, taken, p) ↦ PostingAfter-step rxs post (posts_of n e lanes) r mid _ p (
            rw (send_to_each, taken)
              (send_to_each-Posting e lanes mid
                (rxs ++ record { number = r.channels; worker = post.0; inbound = post.1 } ∷ []) n
                (p.like.workers ∙ c) h))
        | inr (failed, refuses) ↦ inr (
          r,
          rw (send_to_each, failed) refl,
          ([], post, posts_of n e lanes, refl, Posted-nil L B fifo hash_one r, refuses),
        )
      ]
