-- ===== src/Api.antt =====
-- src/api.rs: the calls of `Contime`, which is its router. What `into` makes of an event or a
-- snapshot (a lane), and of a lane (a snapshot), is an argument of the calls that convert.
pub mod Errors
pub mod Start
use contime.Prelude.{ℕ, List}
use contime.Prelude.Int.{ℤ}
use contime.Prelude.{Option}
use contime.Traits.{EventLanes}
use contime.Handle.{HandleError}
use contime.Worker.{WorkerInbound, QueryResult, found, not_found}
use contime.Router.{Router, RouterError, Inbox, Outcome, Receiver}
use contime.Router
use contime.Router.Calls

pub data ContimeError : Type 0 where
  memory_full : ContimeError
  not_found_error : ContimeError
  worker_dropped : ContimeError
  router_error : RouterError → ContimeError

-- `From<RouterError>` and `From<HandleError>`
abbrev pub from_router_error : RouterError → ContimeError
from_router_error RouterError.memory_full = memory_full
from_router_error RouterError.error = router_error RouterError.error

abbrev pub from_handle_error : HandleError → ContimeError
from_handle_error e = worker_dropped

-- the operator `?` on a result of the router
abbrev pub lift {ℓ κ} :
    {R : Type ℓ} {A : Type κ} → Outcome RouterError R A → Outcome ContimeError R A
lift (Outcome.ok a r) = Outcome.ok a r
lift (Outcome.err e r) = Outcome.err (from_router_error e) r
lift Outcome.panics = Outcome.panics

-- the two arms of `at`
abbrev pub answered {ℓ κ μ ν} :
    {R : Type ℓ} {S : Type κ} {V : Type ν} {C : Type μ}
    → (S → V)
    → Outcome ContimeError R (QueryResult S C)
    → Outcome ContimeError R (V × C)
answered into (Outcome.ok (found snapshot_lane reconciliation_rx) r) =
    Outcome.ok (into snapshot_lane, reconciliation_rx) r
answered into (Outcome.ok not_found r) = Outcome.err not_found_error r
answered into (Outcome.err e r) = Outcome.err e r
answered into Outcome.panics = Outcome.panics

module _ {ℓ κ μ ν} {S : Type ℓ} {E : Type κ} {C : Type μ} {Q : Type ν} (L : EventLanes S E)
    (I : Inbox Q (WorkerInbound S E)) (hash_one : ℕ → ℕ) (done : Receiver S E → Option (Unit {0}))
    (replied : Receiver S E → Option (QueryResult S C)) where
  unfoldable pub advance : ℤ → Router Q → Outcome ContimeError (Router Q) (Unit {0})
  advance time r = lift (Calls.advance L I hash_one done replied time r)

  unfoldable pub apply_event {α} :
      {A : Type α} → (A → E) → A → Router Q → Outcome ContimeError (Router Q) (Unit {0})
  apply_event into event r = lift (Calls.apply_event L I hash_one done replied (into event) r)

  unfoldable pub apply_snapshot {α} :
      {A : Type α} → (A → S) → A → Router Q → Outcome ContimeError (Router Q) (Unit {0})
  apply_snapshot into snapshot r =
      lift (Calls.apply_snapshot L I hash_one done replied (into snapshot) r)

  unfoldable pub at {α} :
      {A : Type α} → (S → A) → ℤ → ℕ → Router Q → Outcome ContimeError (Router Q) (A × C)
  at into time snapshot_id r =
      answered into (lift (Calls.at L I hash_one done replied time snapshot_id r))

  unfoldable pub send_event {α} :
      {A : Type α} → (A → E) → A → Router Q → Outcome ContimeError (Router Q) (List (Receiver S E))
  send_event into event r = lift (Router.send_event L I hash_one (into event) r)

  unfoldable pub send_snapshot {α} :
      {A : Type α} → (A → S) → A → Router Q → Outcome ContimeError (Router Q) (List (Receiver S E))
  send_snapshot into snapshot r = lift (Router.send_snapshot L I hash_one (into snapshot) r)

  unfoldable pub query_at : ℤ → ℕ → Router Q → Outcome ContimeError (Router Q) (Receiver S E)
  query_at time snapshot_id r = lift (Router.query_at L I hash_one time snapshot_id r)

  unfoldable pub send_advance : ℤ → Router Q → Outcome ContimeError (Router Q) (List (Receiver S E))
  send_advance time r = lift (Router.send_advance L I hash_one time r)
