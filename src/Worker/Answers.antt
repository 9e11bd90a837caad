-- ===== src/Worker/Answers.antt =====
-- A worker that has events, authoritative snapshots and queries in its inbox answers as an abstract
-- store does.
use contime.Prelude.{ℕ, ◌≡◌, refl, Option, none, some, List, [], ◌∷◌}
use contime.Prelude.Int.{ℤ}
use contime.Traits.{Snapshot, SetsTime, IgnoresTime}
use contime.Channel.{Channel}
use contime.Table.{Table, IsTable}
use contime.Apply.Layers.Event.{IsInFront}
use contime.History.{History}
use contime.History.Ledger.{Ledger, IsFree, answer_at}
use contime.History.Ledger.Refines.{answers}
use contime.Worker.{
  WorkerState, WorkerInbound, event, snapshot, snapshot_at_time, advance_time, shutdown, Reply,
  completed, answered, QueryResult, found, not_found, answer, handle_inbound, handle_worker,
}
use contime.Worker.Store.{
  Store, entry_before, put, put_snapshot, Shows, Represents, event-Represents, snapshot-Represents,
}

module _ {ℓ κ μ} {S : Type ℓ} {E : Type κ} (T : Snapshot S E) (C : Type μ) where
  -- the store after a message
  abbrev pub after : WorkerInbound S E → Store T → Store T
  after (event k e s) σ = put T k e s σ
  after (snapshot s) σ = put_snapshot T s σ
  after inbound σ = σ

  -- a query has the key of no event and of no authority of an entry
  abbrev pub IsFreeAt : ℤ → Option (Ledger S E) → Type 0
  IsFreeAt t none = Unit {0}
  IsFreeAt t (some l) = IsFree T l t

  -- an event that comes with a snapshot of its id and, if it is the latest of the id, lies behind
  -- all authorities in force; any snapshot; or a query at a free key
  abbrev pub IsRequest : WorkerInbound S E → Store T → Type 0
  IsRequest (event k e s) σ =
      let l = entry_before T s (σ k) in (T.id s ≡ k) × IsInFront T e l.authorities l.events
  IsRequest (snapshot s) σ = Unit {0}
  IsRequest (snapshot_at_time k t) σ = IsFreeAt t (σ k)
  IsRequest (advance_time time) σ = ⊥
  IsRequest shutdown σ = ⊥

  -- each message is a request by the time that it is handled
  abbrev pub AreRequests : List (WorkerInbound S E) → Store T → Type 0
  AreRequests [] σ = Unit {0}
  AreRequests (inbound ∷ rest) σ = IsRequest inbound σ × AreRequests rest (after inbound σ)

  -- the id that a message is about has `P`
  abbrev pub IsAbout : (ℕ → Type 0) → WorkerInbound S E → Type 0
  IsAbout P (event k e s) = P k
  IsAbout P (snapshot s) = P (T.id s)
  IsAbout P (snapshot_at_time k t) = P k
  IsAbout P inbound = Unit {0}

  abbrev pub Everywhere : ℕ → Type 0
  Everywhere k = Unit {0}

  -- what the store says to a query: the answer of the ledger
  abbrev pub IsAnswer : ℤ → Option (Ledger S E) → QueryResult S C → Type (ℓ ⊔ μ)
  IsAnswer t none a = a ≡ not_found
  IsAnswer t (some l) a = (c : C) × (a ≡ found (answer_at T l t) c)

  abbrev pub IsReply : WorkerInbound S E → Store T → Reply S C → Type (ℓ ⊔ μ)
  IsReply (snapshot_at_time k t) σ r = (a : QueryResult S C) × (r ≡ answered a) × IsAnswer t (σ k) a
  IsReply inbound σ r = r ≡ completed

  -- the replies to some messages, one for each, in order
  abbrev pub AreReplies : List (WorkerInbound S E) → Store T → List (Reply S C) → Type (ℓ ⊔ μ)
  AreReplies [] σ rs = rs ≡ []
  AreReplies (inbound ∷ rest) σ rs =
      (r : Reply S C) × (rs' : List (Reply S C)) × (rs ≡ r ∷ rs')
      × IsReply inbound σ r
      × AreReplies rest (after inbound σ) rs'

  abbrev pub after_all : List (WorkerInbound S E) → Store T → Store T
  after_all [] σ = σ
  after_all (inbound ∷ rest) σ = after_all rest (after inbound σ)

module _ {ℓ κ μ ν} {S : Type ℓ} {E : Type κ} {C : Type μ} {M : Type ν} (T : Snapshot S E)
    (F : Channel C) (H : Table M (History S E C)) (sets : SetsTime T)
    (ignores : IgnoresTime T) where
  answered_as :
      (k : ℕ) (t : ℤ) (entry : Option (Ledger S E)) (o : Option (History S E C))
      → Shows T F k entry o
      → IsFreeAt T C t entry
      → (a : QueryResult S C) × (answer T F H t o ≡ some a) × IsAnswer T C t entry a
  unfolding answer
  answered_as k t none o v free = (not_found, rw v refl, refl)
  answered_as k t (some l) o (h, e, v) free = (
    found (answer_at T l t) h.reconciliation,
    rw e (rw (answers T F sets ignores l h t v.1 free) refl),
    (h.reconciliation, refl),
  )

  -- a message that does not end the loop
  abbrev Continues : WorkerInbound S E → Type 0
  Continues shutdown = ⊥
  Continues inbound = Unit {0}

  running :
      (inbound : WorkerInbound S E) (σ : Store T) → IsRequest T C inbound σ → Continues inbound
  running (event k e s) σ q = tt
  running (snapshot s) σ q = tt
  running (snapshot_at_time k t) σ q = tt
  running (advance_time time) σ q = tt
  running shutdown σ q = q

  handled :
      (delta : ℤ) (inbound : WorkerInbound S E) (rest : List (WorkerInbound S E))
      (w w₁ w₂ : WorkerState M) (r : Reply S C) (rs : List (Reply S C))
      → Continues inbound
      → handle_inbound T F H delta inbound w ≡ some (w₁, r)
      → handle_worker T F H delta rest w₁ ≡ some (w₂, rs)
      → handle_worker T F H delta (inbound ∷ rest) w ≡ some (w₂, r ∷ rs)
  unfolding handle_worker
  handled delta (event k e s) rest w w₁ w₂ r rs c eq eqs = rw (eq, eqs) refl
  handled delta (snapshot s) rest w w₁ w₂ r rs c eq eqs = rw (eq, eqs) refl
  handled delta (snapshot_at_time k t) rest w w₁ w₂ r rs c eq eqs = rw (eq, eqs) refl
  handled delta (advance_time time) rest w w₁ w₂ r rs c eq eqs = rw (eq, eqs) refl
  handled delta shutdown rest w w₁ w₂ r rs c eq eqs = absurd c

  -- a worker takes a message about an id with `P` as the store does
  pub handle_inbound-Represents :
      IsTable H
      → (P : ℕ → Type 0) (delta : ℤ) (inbound : WorkerInbound S E) (σ : Store T) (w : WorkerState M)
      → Represents T F H P σ w.history_by_id
      → IsRequest T C inbound σ
      → IsAbout T C P inbound
      → (w' : WorkerState M) × (r : Reply S C) × (handle_inbound T F H delta inbound w
          ≡ some (w', r))
        × IsReply T C inbound σ r
        × Represents T F H P (after T C inbound σ) w'.history_by_id
  unfolding handle_inbound
  handle_inbound-Represents table P delta (event k e s) σ w v q here =
      let (w', eq, v') = event-Represents T F H P table delta k e s σ w q.0 q.1 here v in
      (w', completed, eq, refl, v')
  handle_inbound-Represents table P delta (snapshot_at_time k t) σ w v q here =
      let (a, eq, correct) = answered_as k t (σ k) (H.get k w.history_by_id) (v k here) q in
      (w, answered a, rw eq refl, (a, refl, correct), v)
  handle_inbound-Represents table P delta (snapshot s) σ w v q here =
      let (w', eq, v') = snapshot-Represents T F H P table delta s σ w here v in
      (w', completed, eq, refl, v')
  handle_inbound-Represents table P delta (advance_time time) σ w v q here = absurd q
  handle_inbound-Represents table P delta shutdown σ w v q here = absurd q

  IsAbout-any : (inbound : WorkerInbound S E) → IsAbout T C (Everywhere T C) inbound
  IsAbout-any (event k e s) = tt
  IsAbout-any (snapshot s) = tt
  IsAbout-any (snapshot_at_time k t) = tt
  IsAbout-any (advance_time time) = tt
  IsAbout-any shutdown = tt

  -- Where `set_time` sets only the time and the effect of an event ignores it: a worker whose
  -- histories hold a store, and whose inbox holds requests, does not panic. Requests are events,
  -- each with a snapshot of its id and, if it is the latest of the id, behind all authorities in
  -- force; snapshots; and queries at keys that no event and no authority has by then. The worker
  -- replies to each message in order, an event or a snapshot is completed, and a query finds what
  -- the store has by then: nothing, or the last authority up to the query, or the first state of
  -- the id, with the events behind it and before the query applied. In the end its histories hold
  -- the store after all messages.
  pub handle_worker-Represents :
      IsTable H
      → (delta : ℤ) (messages : List (WorkerInbound S E)) (σ : Store T) (w : WorkerState M)
      → Represents T F H (Everywhere T C) σ w.history_by_id
      → AreRequests T C messages σ
      → (w' : WorkerState M) × (rs : List (Reply S C)) × (handle_worker T F H delta messages w
          ≡ some (w', rs))
        × AreReplies T C messages σ rs
        × Represents T F H (Everywhere T C) (after_all T C messages σ) w'.history_by_id
  unfolding handle_worker
  handle_worker-Represents table delta [] σ w v q = (w, [], refl, refl, v)
  handle_worker-Represents table delta (inbound ∷ rest) σ w v q =
      let (w₁, r, eq, reply, v₁) =
        handle_inbound-Represents table (Everywhere T C) delta inbound σ w v q.0
          (IsAbout-any inbound) in
      let (w₂, rs, eqs, replies, v₂) =
        handle_worker-Represents table delta rest (after T C inbound σ) w₁ v₁ q.1 in
      (
        w₂,
        r ∷ rs,
        handled delta inbound rest w w₁ w₂ r rs (running inbound σ q.0) eq eqs,
        (r, rs, refl, reply, replies),
        v₂,
      )
