-- ===== src/System/Calls.antt =====
-- What the calls of the router put into the channels: every message about an id goes to the home
-- of the id.
use contime.Prelude.{
  ℕ, zero, suc, ◌+◌, ◌%◌, ◌≡◌, refl, sym, ◌∙◌, some, Option-cases, Bool-cases, inl, inr, List, [],
  ◌∷◌, ◌++◌, All, All-append, some_injective, length, get_elem?, length-set, AllAt, AllAt-set,
  subst,
}
use contime.Prelude.Int.{ℤ}
use contime.Traits.{EventLanes}
use contime.Worker.{WorkerInbound, event, snapshot, snapshot_at_time, advance_time, shutdown}
use contime.Router.{
  Router, RouterError, Outcome, Receiver, worker_index, send_to, route, send_to_each, over_budget,
  send_event, send_snapshot, query_at, advance_workers, send_advance,
}
use contime.System.{
  Mailbox, IsFifo, Call, event_call, snapshot_call, query_call, advance_call, left, call, Sends,
  event_to, snapshot_to, query_to, advance_to,
}

module _ {ℓ κ ξ} {S : Type ℓ} {E : Type κ} {Q : Type ξ} (L : EventLanes S E)
    (B : Mailbox Q (WorkerInbound S E)) (fifo : IsFifo B) (hash_one : ℕ → ℕ) (n : ℕ) where
  -- the id has its home at the worker
  abbrev pub IsHome : ℕ → ℕ → Type 0
  IsHome i k = hash_one k % n ≡ i

  -- a message may wait at the worker
  abbrev pub Belongs : ℕ → WorkerInbound S E → Type 0
  Belongs i (event k e s) = (L.lane.id s ≡ k) × IsHome i k
  Belongs i (snapshot s) = IsHome i (L.lane.id s)
  Belongs i (snapshot_at_time k t) = IsHome i k
  Belongs i (advance_time t) = Unit {0}
  Belongs i shutdown = Unit {0}

  abbrev pub AllBelong : ℕ → Q → Type 0
  AllBelong i q = All (Belongs i) (B.waiting q)

  -- as many channels as workers, with nothing but messages that belong there
  pub record IsRouted (r : Router Q) : Type ξ where
    pub count : length r.workers ≡ n
    pub messages : AllAt AllBelong r.workers

  -- the router that a call leaves is routed
  abbrev pub Leaves {ν} : {A : Type ν} → Outcome RouterError (Router Q) A → Type ξ
  Leaves (Outcome.ok a r) = IsRouted r
  Leaves (Outcome.err e r) = IsRouted r
  Leaves Outcome.panics = Unit

  left-Leaves {ν} :
      {A : Type ν} (o : Outcome RouterError (Router Q) A) (r : Router Q)
      → Leaves o
      → left o ≡ some r
      → IsRouted r
  left-Leaves (Outcome.ok a r) r' v e = subst IsRouted (some_injective r r' e) v
  left-Leaves (Outcome.err x r) r' v e = subst IsRouted (some_injective r r' e) v
  left-Leaves Outcome.panics r' v e = cc

  pub set-AllBelong :
      (i : ℕ) (inbound : WorkerInbound S E) (q q' : Q)
      → Belongs i inbound
      → AllBelong i q
      → B.inbox.send inbound q ≡ some q'
      → AllBelong i q'
  set-AllBelong i inbound q q' b a e =
      rw (fifo.waiting-send inbound q q' e)
        (All-append (Belongs i) (B.waiting q) (inbound ∷ []) a (b, tt))

  send_to-Leaves :
      (i : ℕ) (inbound : WorkerInbound S E) (r : Router Q)
      → Belongs i inbound
      → IsRouted r
      → Leaves (send_to L B.inbox hash_one i inbound r)
  unfolding send_to
  send_to-Leaves i inbound r b v = elim (Option-cases (get_elem? r.workers i)) [
    | inl gone ↦ rw (send_to, gone) tt
    | inr (q, at_i) ↦ elim (Option-cases (B.inbox.send inbound q)) [
      | inl refused ↦ rw (send_to, at_i) (rw refused v)
      | inr (q', sent) ↦
          rw (send_to, at_i)
            (rw sent (record {
              count = length-set r.workers i q' ∙ v.count;
              messages =
                  AllAt-set AllBelong r.workers i q' v.messages
                    (set-AllBelong i inbound q q' b (v.messages i q at_i) sent);
            }))
    ]
  ]

  route-Leaves :
      (k : ℕ) (inbound : WorkerInbound S E) (r : Router Q)
      → Belongs (hash_one k % n) inbound
      → IsRouted r
      → Leaves (route L B.inbox hash_one k inbound r)
  unfolding route worker_index
  route-Leaves k inbound r b v = at_length (length r.workers) refl
    where
      at_length : (m : ℕ) → length r.workers ≡ m → Leaves (route L B.inbox hash_one k inbound r)
      at_length zero e = rw (route, worker_index, e) tt
      at_length (suc m) e =
          rw (route, worker_index, e)
            (send_to-Leaves (hash_one k % suc m) inbound r
              (subst (λ c. Belongs (hash_one k % c) inbound) (sym v.count ∙ e) b) v)

  send_to_each-Leaves :
      (e : E) (lanes : List S) (r : Router Q) (rxs : List (Receiver S E))
      → IsRouted r
      → Leaves (send_to_each L B.inbox hash_one e lanes r rxs)
  unfolding send_to_each
  send_to_each-Leaves e [] r rxs v = v
  send_to_each-Leaves e (s ∷ lanes) r rxs v =
      next (route L B.inbox hash_one (L.lane.id s) (event (L.lane.id s) e s) r)
        (route-Leaves (L.lane.id s) (event (L.lane.id s) e s) r (refl, refl) v)
        (λ r' rxs'. send_to_each-Leaves e lanes r' rxs')
    where
      next :
          (o : Outcome RouterError (Router Q) (Receiver S E))
          → Leaves o
          → ((r' : Router Q) (rxs' : List (Receiver S E))
              → IsRouted r'
              → Leaves (send_to_each L B.inbox hash_one e lanes r' rxs'))
          → Leaves (elim o [
            | Outcome.ok rx r' ↦ send_to_each L B.inbox hash_one e lanes r' (rxs ++ rx ∷ [])
            | Outcome.err x r' ↦ Outcome.err x r'
            | Outcome.panics ↦ Outcome.panics
          ])
      next (Outcome.ok rx r') w again = again r' (rxs ++ rx ∷ []) w
      next (Outcome.err x r') w again = w
      next Outcome.panics w again = tt

  advance_workers-Leaves :
      (t : ℤ) (rest i : ℕ) (r : Router Q) (rxs : List (Receiver S E))
      → IsRouted r
      → Leaves (advance_workers L B.inbox hash_one t rest i r rxs)
  unfolding advance_workers
  advance_workers-Leaves t zero i r rxs v = v
  advance_workers-Leaves t (suc rest) i r rxs v =
      next (send_to L B.inbox hash_one i (advance_time t) r)
        (send_to-Leaves i (advance_time t) r tt v)
        (λ r' rxs'. advance_workers-Leaves t rest (i + 1) r' rxs')
    where
      next :
          (o : Outcome RouterError (Router Q) (Receiver S E))
          → Leaves o
          → ((r' : Router Q) (rxs' : List (Receiver S E))
              → IsRouted r'
              → Leaves (advance_workers L B.inbox hash_one t rest (i + 1) r' rxs'))
          → Leaves (elim o [
            | Outcome.ok rx r' ↦
                advance_workers L B.inbox hash_one t rest (i + 1) r' (rxs ++ rx ∷ [])
            | Outcome.err x r' ↦ Outcome.err x r'
            | Outcome.panics ↦ Outcome.panics
          ])
      next (Outcome.ok rx r') w again = again r' (rxs ++ rx ∷ []) w
      next (Outcome.err x r') w again = w
      next Outcome.panics w again = tt

  send_event-Leaves :
      (e : E) (r : Router Q) → IsRouted r → Leaves (send_event L B.inbox hash_one e r)
  unfolding send_event
  send_event-Leaves e r v =
      elim (Bool-cases (over_budget L B.inbox hash_one (L.lane.event.conservative_size e) r)) [
        | inl full ↦ rw full v
        | inr free ↦ rw free (send_to_each-Leaves e (L.snapshots e) r [] v)
      ]

  send_snapshot-Leaves :
      (s : S) (r : Router Q) → IsRouted r → Leaves (send_snapshot L B.inbox hash_one s r)
  unfolding send_snapshot
  send_snapshot-Leaves s r v =
      elim (Bool-cases (over_budget L B.inbox hash_one (L.lane.conservative_size s) r)) [
        | inl full ↦ rw full v
        | inr free ↦ rw free (
            next (route L B.inbox hash_one (L.lane.id s) (snapshot s) r)
              (route-Leaves (L.lane.id s) (snapshot s) r refl v))
      ]
    where
      next :
          (o : Outcome RouterError (Router Q) (Receiver S E))
          → Leaves o
          → Leaves (elim o [
            | Outcome.ok rx r' ↦ Outcome.ok (rx ∷ []) r'
            | Outcome.err x r' ↦ Outcome.err x r'
            | Outcome.panics ↦ Outcome.panics
          ])
      next (Outcome.ok rx r') w = w
      next (Outcome.err x r') w = w
      next Outcome.panics w = tt

  -- every call of the router leaves it routed
  pub call-IsRouted :
      (c : Call S E) (r r' : Router Q) → IsRouted r → call L B hash_one c r ≡ some r' → IsRouted r'
  unfolding call send_advance query_at
  call-IsRouted (event_call e) r r' v q =
      left-Leaves (send_event L B.inbox hash_one e r) r' (send_event-Leaves e r v) q
  call-IsRouted (snapshot_call s) r r' v q =
      left-Leaves (send_snapshot L B.inbox hash_one s r) r' (send_snapshot-Leaves s r v) q
  call-IsRouted (query_call t k) r r' v q =
      left-Leaves (query_at L B.inbox hash_one t k r) r'
        (route-Leaves k (snapshot_at_time k t) r refl v) q
  call-IsRouted (advance_call t) r r' v q =
      left-Leaves (send_advance L B.inbox hash_one t r) r'
        (advance_workers-Leaves t (length r.workers) 0 r [] v) q

  -- and so does every single send of a call
  pub Sends-IsRouted : {r r' : Router Q} → Sends L B hash_one r r' → IsRouted r → IsRouted r'
  Sends-IsRouted {r} {r'} (event_to e pre s post rx m q) v =
      subst Leaves q (route-Leaves (L.lane.id s) (event (L.lane.id s) e s) r (refl, refl) v)
  Sends-IsRouted {r} {r'} (snapshot_to s rx q) v =
      subst Leaves q (route-Leaves (L.lane.id s) (snapshot s) r refl v)
  Sends-IsRouted {r} {r'} (query_to t k rx q) v =
      subst Leaves q (route-Leaves k (snapshot_at_time k t) r refl v)
  Sends-IsRouted {r} {r'} (advance_to t i rx q) v =
      subst Leaves q (send_to-Leaves i (advance_time t) r tt v)
