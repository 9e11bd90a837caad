-- ===== src/Channel.antt =====
-- The bounded channel of the crate `flume` that carries reconciliations, as the histories use it.
-- The crate is a parameter, `Channel`; what its documentation says is `IsBounded`.
use contime.Prelude.{ℕ, ◌≤◌, ◌<◌, ◌≡◌, List, [], ◌∷◌, ◌++◌, length}
use contime.Prelude.Int.{ℤ}

-- src/history.rs, `Reconciliation`
pub record Reconciliation : Type 0 where
  pub snapshot_id : ℕ
  pub from_time : ℤ
  pub to_time : ℤ

pub record Channel {μ} (C : Type μ) : Type μ where
  pub bounded : ℕ → C
  pub try_send : Reconciliation → C → C
  -- the messages that wait, the oldest first, and the most that may wait
  pub queued : C → List Reconciliation
  pub capacity : C → ℕ

-- A new channel is empty. A message is queued behind the others where there is room; `try_send`
-- on a full channel fails and changes nothing.
pub record IsBounded {μ} {C : Type μ} (F : Channel C) : Type μ where
  pub queued-bounded : (n : ℕ) → F.queued (F.bounded n) ≡ []
  pub capacity-bounded : (n : ℕ) → F.capacity (F.bounded n) ≡ n
  pub capacity-try_send : (r : Reconciliation) (c : C) → F.capacity (F.try_send r c) ≡ F.capacity c
  pub queued_room :
      (r : Reconciliation) (c : C)
      → length (F.queued c) < F.capacity c
      → F.queued (F.try_send r c) ≡ F.queued c ++ r ∷ []
  pub queued_full :
      (r : Reconciliation) (c : C)
      → F.capacity c ≤ length (F.queued c)
      → F.queued (F.try_send r c) ≡ F.queued c
