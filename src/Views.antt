-- ===== src/Views.antt =====
-- src/flume_ext.rs: a receiver of lanes as an iterator over the snapshots of one type. The channel
-- (`flume`) is the parameter `Stream`, with the law `IsStream`; the phantom field is left out.
pub mod Iteration
use contime.Prelude.{ℕ, zero, suc, ◌≡◌, Option, none, some, List, [], ◌∷◌, ◌>>=◌}

-- a receiver: `recv` waits for the next message, and finds none once all senders have gone
pub record Stream {ℓ κ} (R : Type ℓ) (A : Type κ) : Type (ℓ ⊔ κ) where
  pub recv : R → Option (A × R)
  -- the messages that come before all senders have gone, the oldest first
  pub messages : R → List A

-- Every message is received once, in order, and then none.
pub record IsStream {ℓ κ} {R : Type ℓ} {A : Type κ} (B : Stream R A) : Type (ℓ ⊔ κ) where
  pub recv_next :
      (a : A) (rest : List A) (r : R)
      → B.messages r ≡ a ∷ rest
      → (r' : R) × (B.recv r ≡ some (a, r')) × (B.messages r' ≡ rest)
  pub recv_end : (r : R) → B.messages r ≡ [] → B.recv r ≡ none

pub record SnapshotReceiver {ℓ} (R : Type ℓ) : Type ℓ where
  pub inner : R

pub record SnapshotIter {ℓ} (R : Type ℓ) : Type ℓ where
  pub inner : R

abbrev pub new {ℓ} : {R : Type ℓ} → R → SnapshotReceiver R
new inner = record { inner = inner }

abbrev pub into_iter {ℓ} : {R : Type ℓ} → SnapshotReceiver R → SnapshotIter R
into_iter receiver = record { inner = receiver.inner }

module _ {ℓ κ μ} {R : Type ℓ} {A : Type κ} {S : Type μ} (B : Stream R A) (into : A → S) where
  -- `next`: the item, with the iterator that is left
  unfoldable pub next : SnapshotIter R → Option (S × SnapshotIter R)
  next it = do received ← B.recv it.inner; some (into received.0, record { inner = received.1 })

  -- the items of a `for` loop over the iterator; `none` where the fuel does not do
  unfoldable pub items : ℕ → SnapshotIter R → Option (List S)
  items zero it = none
  items (suc fuel) it = elim (next it) [
    | none ↦ some []
    | some (snapshot, it') ↦ do rest ← items fuel it'; some (snapshot ∷ rest)
  ]
