-- ===== src/Api/Start.antt =====
-- src/api.rs: the constructors of `Contime`, which start the router and its threads.
use contime.Prelude.{ℕ}
use contime.Prelude.Int.{ℤ, pos}
use contime.Traits.{EventLanes}
use contime.Channel.{Channel}
use contime.Table.{Table}
use contime.History.{History}
use contime.Worker.{WorkerInbound}
use contime.System.{Mailbox, System}
use contime.System

module _ {ℓ κ μ ν ξ} {S : Type ℓ} {E : Type κ} {C : Type μ} {M : Type ν} {Q : Type ξ}
    (L : EventLanes S E) (F : Channel C) (H : Table M (History S E C))
    (B : Mailbox Q (WorkerInbound S E)) (hash_one : ℕ → ℕ) where
  unfoldable pub with_history_horizon : ℕ → ℕ → ℤ → System Q M
  with_history_horizon worker_count memory_budget_bytes lower_time_horizon_delta =
      System.new L F H B hash_one lower_time_horizon_delta worker_count memory_budget_bytes

  -- the workers of `Router::new` have the horizon 0
  unfoldable pub new : ℕ → ℕ → System Q M
  new worker_count memory_budget_bytes =
      System.new L F H B hash_one (pos 0) worker_count memory_budget_bytes
