-- ===== src/Handle.antt =====
-- src/handle.rs: the handles that wait for replies. What a receiver (`flume`) shows when it is
-- polled or waited for is a parameter.
pub mod Polling
pub mod Waiting
pub mod Left
pub mod Repeated
use contime.Prelude.{
  ℕ, zero, suc, ◌+◌, ◌-◌, ◌≡◌, Bool, true, false, Option, none, some, List, [], ◌∷◌, get_elem?, set,
  last, length, if◌then◌else◌,
}

pub data HandleError : Type 0 where
  worker_dropped : HandleError

pub data Result {ℓ} (A : Type ℓ) : Type ℓ where
  ok : A → Result A
  err : HandleError → Result A

-- what `try_recv` finds: a message, none yet, or a sender that has gone
pub data Polled {ℓ} (A : Type ℓ) : Type ℓ where
  received : A → Polled A
  empty : Polled A
  disconnected : Polled A

-- `Vec::swap_remove`: the last element takes the place of the one that is removed
unfoldable pub drop_last {ℓ} : {A : Type ℓ} → List A → List A
drop_last [] = []
drop_last (x ∷ []) = []
drop_last (x ∷ y ∷ xs) = x ∷ drop_last (y ∷ xs)

unfoldable pub swap_remove {ℓ} : {A : Type ℓ} → ℕ → List A → List A
unfolding drop_last
swap_remove i xs = elim (last xs) [ none ↦ xs | some x ↦ drop_last (set xs i x) ]

pub record AdvanceHandle {ℓ} (R : Type ℓ) : Type ℓ where
  pub rxs : List R

module _ {ℓ} {R : Type ℓ} (recv : R → Option (Unit {0})) where
  -- `ApplyHandle::wait`: a failed `recv` ends the loop
  unfoldable pub wait : List R → Result (Unit {0})
  wait [] = ok tt
  wait (rx ∷ rxs) =
      let rest = wait rxs in elim (recv rx) [ none ↦ err worker_dropped | some u ↦ rest ]

  -- `AdvanceHandle::wait`, whose body is that of `ApplyHandle::wait`
  unfoldable pub advance_wait : AdvanceHandle R → Result (Unit {0})
  advance_wait handle = wait handle.rxs

module _ {ℓ} {R : Type ℓ} (poll : R → Polled (Unit {0})) where
  -- the loop of `try_recv`: its end or its error, with the receivers that are left
  unfoldable pub try_recv_loop : ℕ → ℕ → List R → Result (Unit {0}) × List R
  unfolding swap_remove
  try_recv_loop zero i rxs = (ok tt, rxs)
  try_recv_loop (suc fuel) i rxs = elim (get_elem? rxs i) [
    | none ↦ (ok tt, rxs)
    | some rx ↦ elim (poll rx) [
      | received u ↦ try_recv_loop fuel i (swap_remove i rxs)
      | empty ↦ try_recv_loop fuel (i + 1) rxs
      | disconnected ↦ (err worker_dropped, rxs)
    ]
  ]

  abbrev pub is_done : Result (Unit {0}) → List R → Result (Option (Unit {0}))
  is_done (ok u) [] = ok (some tt)
  is_done (ok u) (rx ∷ rxs) = ok none
  is_done (err e) rxs = err e

  -- the result of `try_recv`, and the receivers that the handle keeps
  unfoldable pub try_recv : List R → Result (Option (Unit {0})) × List R
  try_recv rxs = let r = try_recv_loop (length rxs) 0 rxs in (is_done r.0 r.1, r.1)

  -- one poll of the future of `ApplyHandle::recv_async`: it goes on to the next receiver where a
  -- message has come, and keeps those that it still waits for; `none` is a future that is pending
  unfoldable pub poll_recv_async : List R → Option (Result (Unit {0})) × List R
  poll_recv_async [] = (some (ok tt), [])
  poll_recv_async (rx ∷ rxs) =
      let rest = poll_recv_async rxs in
      elim (poll rx) [
        | received u ↦ rest
        | empty ↦ (none, rx ∷ rxs)
        | disconnected ↦ (some (err worker_dropped), rx ∷ rxs)
      ]

  -- `AdvanceHandle`, whose methods have the bodies of those of `ApplyHandle`
  unfoldable pub advance_try_recv : AdvanceHandle R → Result (Option (Unit {0})) × AdvanceHandle R
  advance_try_recv handle = let r = try_recv handle.rxs in (r.0, record { rxs = r.1 })

  unfoldable pub advance_poll_recv_async :
      AdvanceHandle R → Option (Result (Unit {0})) × AdvanceHandle R
  advance_poll_recv_async handle = let r = poll_recv_async handle.rxs in (r.0, record { rxs = r.1 })

module _ {ℓ κ} {R : Type ℓ} {A : Type κ} where
  -- `QueryHandle::wait`
  unfoldable pub wait_query : (R → Option A) → R → Result A
  wait_query recv rx = elim (recv rx) [ none ↦ err worker_dropped | some a ↦ ok a ]

  -- `QueryHandle::try_recv`
  unfoldable pub try_recv_query : (R → Polled A) → R → Result (Option A)
  try_recv_query poll rx = elim (poll rx) [
    | received a ↦ ok (some a)
    | empty ↦ ok none
    | disconnected ↦ err worker_dropped
  ]

  -- one poll of the future of `QueryHandle::recv_async`
  unfoldable pub poll_query_async : (R → Polled A) → R → Option (Result A)
  poll_query_async poll rx = elim (poll rx) [
    | received a ↦ some (ok a)
    | empty ↦ none
    | disconnected ↦ some (err worker_dropped)
  ]
