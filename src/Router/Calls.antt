-- ===== src/Router/Calls.antt =====
-- src/router.rs: the calls that wait for the replies. What a receiver gets in the end is a
-- parameter: `done` and `replied` give nothing where the worker has gone.
use contime.Prelude.{ℕ, Option, List}
use contime.Prelude.Int.{ℤ}
use contime.Traits.{EventLanes}
use contime.Handle.{Result, wait, wait_query}
use contime.Worker.{WorkerInbound, QueryResult}
use contime.Router.{
  Router, RouterError, error, Inbox, Outcome, Receiver, send_event, send_snapshot, query_at,
  send_advance,
}

module _ {ℓ κ ν} {S : Type ℓ} {E : Type κ} {Q : Type ν}
    (done : Receiver S E → Option (Unit {0})) where
  -- `handle?.wait().map_err(|_| RouterError::Error)`
  abbrev pub waited :
      Outcome RouterError (Router Q) (List (Receiver S E))
      → Outcome RouterError (Router Q) (Unit {0})
  waited (Outcome.ok rxs r) = elim (wait done rxs) [
    | Result.ok u ↦ Outcome.ok u r
    | Result.err e ↦ Outcome.err error r
  ]
  waited (Outcome.err e r) = Outcome.err e r
  waited Outcome.panics = Outcome.panics

module _ {ℓ κ μ ν} {S : Type ℓ} {E : Type κ} {A : Type μ} {Q : Type ν}
    (replied : Receiver S E → Option A) where
  abbrev pub waited_query :
      Outcome RouterError (Router Q) (Receiver S E) → Outcome RouterError (Router Q) A
  waited_query (Outcome.ok rx r) = elim (wait_query replied rx) [
    | Result.ok a ↦ Outcome.ok a r
    | Result.err e ↦ Outcome.err error r
  ]
  waited_query (Outcome.err e r) = Outcome.err e r
  waited_query Outcome.panics = Outcome.panics

module _ {ℓ κ μ ν} {S : Type ℓ} {E : Type κ} {C : Type μ} {Q : Type ν} (L : EventLanes S E)
    (I : Inbox Q (WorkerInbound S E)) (hash_one : ℕ → ℕ) (done : Receiver S E → Option (Unit {0}))
    (replied : Receiver S E → Option (QueryResult S C)) where
  unfoldable pub apply_event : E → Router Q → Outcome RouterError (Router Q) (Unit {0})
  apply_event event_lane r = waited done (send_event L I hash_one event_lane r)

  unfoldable pub apply_snapshot : S → Router Q → Outcome RouterError (Router Q) (Unit {0})
  apply_snapshot snapshot_lane r = waited done (send_snapshot L I hash_one snapshot_lane r)

  unfoldable pub at : ℤ → ℕ → Router Q → Outcome RouterError (Router Q) (QueryResult S C)
  at time snapshot_id r = waited_query replied (query_at L I hash_one time snapshot_id r)

  unfoldable pub advance : ℤ → Router Q → Outcome RouterError (Router Q) (Unit {0})
  advance time r = waited done (send_advance L I hash_one time r)
