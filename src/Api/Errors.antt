-- ===== src/Api/Errors.antt =====
-- What the waiting calls of src/api.rs return when a worker refuses, fails or does not answer.
use contime.Prelude.{
  ℕ, ◌+◌, ◌^◌, ◌<◌, ◌≤◌, ◌≡◌, ◌⊎◌, inl, inr, refl, ap, ◌∙◌, Bool, true, false, Option, none, some,
  Option-cases, List, [], ◌∷◌, length, if◌then◌else◌,
}
use contime.Prelude.Int.{ℤ}
use contime.Traits.{EventLanes}
use contime.Handle.{Result, worker_dropped, wait, wait_query}
use contime.Worker.{WorkerInbound, snapshot_at_time, QueryResult, found, not_found}
use contime.Router.{Router, RouterError, Outcome, Receiver, query_at}
use contime.Router.Posting.{receivers, home, Posted, Refuses, Stops}
use contime.Router.Sending.{route-Sending}
use contime.Router.Budget.{event_posts, send_event_within_budget}
use contime.System.{Mailbox, IsFifo}
use contime.Router.Calls
use contime.Api.{
  ContimeError, memory_full, not_found_error, router_error, lift, answered, apply_event, at,
}

module _ {ℓ κ} {S : Type ℓ} {E : Type κ} (done : Receiver S E → Option (Unit {0})) where
  -- every receiver gets its reply
  abbrev pub all_done : List (Receiver S E) → Bool
  all_done [] = true
  all_done (rx ∷ rxs) = elim (done rx) [ none ↦ false | some u ↦ all_done rxs ]

  wait-all_done :
      (rxs : List (Receiver S E))
      → wait done rxs ≡ (if all_done rxs then Result.ok tt else Result.err worker_dropped)
  unfolding wait
  wait-all_done [] = refl
  wait-all_done (rx ∷ rxs) = elim (Option-cases (done rx)) [
    | inl e ↦ rw (wait, all_done, e) refl
    | inr (u, e) ↦ rw (wait, all_done, e) (wait-all_done rxs)
  ]

module _ {ℓ κ μ ν} {S : Type ℓ} {E : Type κ} {C : Type μ} {Q : Type ν} (L : EventLanes S E)
    (B : Mailbox Q (WorkerInbound S E)) (fifo : IsFifo B) (hash_one : ℕ → ℕ)
    (done : Receiver S E → Option (Unit {0}))
    (replied : Receiver S E → Option (QueryResult S C)) where
  -- the outcome of a wait, for a caller of `Contime`
  abbrev pub after_wait : Bool → Router Q → Outcome ContimeError (Router Q) (Unit {0})
  after_wait true r = Outcome.ok tt r
  after_wait false r = Outcome.err (router_error RouterError.error) r

  settled :
      (rxs : List (Receiver S E)) (r : Router Q) (b : Bool)
      → all_done done rxs ≡ b
      → lift (Calls.waited done (Outcome.ok rxs r)) ≡ after_wait b r
  settled rxs r true q = rw (lift, Calls.waited, wait-all_done done rxs) (rw q refl)
  settled rxs r false q = rw (lift, Calls.waited, wait-all_done done rxs) (rw q refl)

  -- the calls that wait for messages: all are in the channels, and the outcome is that of the wait
  -- for their receivers, or a worker has gone and the call fails there
  abbrev pub Settling :
      List (ℕ × WorkerInbound S E)
      → Router Q
      → Outcome ContimeError (Router Q) (Unit {0})
      → Type (ℓ ⊔ κ ⊔ ν)
  Settling posts r result =
      ((r' : Router Q) × Posted L B fifo hash_one posts r r'
        × (result ≡ after_wait (all_done done (receivers r.channels posts)) r'))
      ⊎ ((r' : Router Q) × (result ≡ Outcome.err (router_error RouterError.error) r')
          × Stops L B fifo hash_one posts r r')

  -- As long as use and size add up to less than 2^64 and there is a worker: an event is refused
  -- with `MemoryFull`, the router unchanged, exactly where use and size reach the budget. Otherwise
  -- its messages go into the channels. If a worker has gone, the call returns a routing error with
  -- the messages before that one sent. Else it is done if each of the messages gets its reply, and
  -- returns a routing error if one does not; never `WorkerDropped`.
  pub apply_event_outcome {α} :
      {A : Type α} (into : A → E) (e : A) (r : Router Q)
      → 0 < length r.workers
      → r.memory_usage + L.lane.event.conservative_size (into e) < 2 ^ 64
      → ((r.memory_budget ≤ r.memory_usage + L.lane.event.conservative_size (into e))
          × (apply_event L B.inbox hash_one done replied into e r ≡ Outcome.err memory_full r))
        ⊎ ((r.memory_usage + L.lane.event.conservative_size (into e) < r.memory_budget)
            × Settling
                (event_posts L B fifo hash_one (into e) r)
                r
                (apply_event L B.inbox hash_one done replied into e r))
  unfolding apply_event Calls.apply_event
  apply_event_outcome into e r h small =
      elim (send_event_within_budget L B fifo hash_one (into e) r h small) [
        | inl (full, refused) ↦ inl (full, ap (λ x. lift (Calls.waited done x)) refused)
        | inr (room, inl (r', sent, p)) ↦
            inr (room, inl (r', p, ap (λ x. lift (Calls.waited done x)) sent ∙ settled _ r' _ refl))
        | inr (room, inr (r', failed, stops)) ↦
            inr (room, inr (r', ap (λ x. lift (Calls.waited done x)) failed, stops))
      ]

  -- the outcome of a query, for a caller of `Contime`
  abbrev pub after_query {α} :
      {A : Type α}
      → (S → A)
      → Option (QueryResult S C)
      → Router Q
      → Outcome ContimeError (Router Q) (A × C)
  after_query into none r = Outcome.err (router_error RouterError.error) r
  after_query into (some not_found) r = Outcome.err not_found_error r
  after_query into (some (found s c)) r = Outcome.ok (into s, c) r

  replied_outcome {α} :
      {A : Type α} (into : S → A) (rx : Receiver S E) (r : Router Q) (o : Option (QueryResult S C))
      → replied rx ≡ o
      → answered into (lift (Calls.waited_query replied (Outcome.ok rx r))) ≡ after_query into o r
  unfolding wait_query
  replied_outcome into rx r none q = rw (answered, lift, Calls.waited_query, wait_query, q) refl
  replied_outcome into rx r (some not_found) q =
      rw (answered, lift, Calls.waited_query, wait_query, q) refl
  replied_outcome into rx r (some (found s c)) q =
      rw (answered, lift, Calls.waited_query, wait_query, q) refl

  -- the message of a query, and the receiver of its reply
  abbrev pub query_post : ℤ → ℕ → Router Q → ℕ × WorkerInbound S E
  query_post time snapshot_id r =
      (home L B fifo hash_one r snapshot_id, snapshot_at_time snapshot_id time)

  abbrev pub query_receiver : ℤ → ℕ → Router Q → Receiver S E
  query_receiver time snapshot_id r = record {
    number = r.channels;
    worker = home L B fifo hash_one r snapshot_id;
    inbound = snapshot_at_time snapshot_id time;
  }

  -- If there is a worker, `at` puts the query with its time behind what waits at the worker of the
  -- id, and returns what the reply to this message is: the converted snapshot with its receiver, or
  -- `NotFound`, and a routing error without a reply. If that worker has gone, it returns a routing
  -- error, with nothing sent. `WorkerDropped` is never returned.
  pub at_outcome {α} :
      {A : Type α} (into : S → A) (time : ℤ) (snapshot_id : ℕ) (r : Router Q)
      → 0 < length r.workers
      → ((r' : Router Q) × Posted L B fifo hash_one (query_post time snapshot_id r ∷ []) r r'
          × (at L B.inbox hash_one done replied into time snapshot_id r
              ≡ after_query into (replied (query_receiver time snapshot_id r)) r'))
        ⊎ ((at L B.inbox hash_one done replied into time snapshot_id r
              ≡ Outcome.err (router_error RouterError.error) r)
            × Refuses L B fifo hash_one (query_post time snapshot_id r) r)
  unfolding at Calls.at query_at
  at_outcome into time snapshot_id r h =
      elim (route-Sending L B fifo hash_one snapshot_id (snapshot_at_time snapshot_id time) r h) [
        | inl (r', sent, p) ↦ inl (
          r',
          p,
          ap (λ x. answered into (lift (Calls.waited_query replied x))) sent
              ∙ replied_outcome into (query_receiver time snapshot_id r) r' _ refl,
        )
        | inr (failed, refuses) ↦
            inr (ap (λ x. answered into (lift (Calls.waited_query replied x))) failed, refuses)
      ]
