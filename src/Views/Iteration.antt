-- ===== src/Views/Iteration.antt =====
-- The loop over a receiver of lanes: it ends, and yields the snapshots of all messages in order.
use contime.Prelude.{ℕ, zero, suc, ◌<◌, ◌≡◌, refl, some, List, [], ◌∷◌, map, length, arith}
use contime.Views.{Stream, IsStream, new, into_iter, next, items}

module _ {ℓ κ μ} {R : Type ℓ} {A : Type κ} {S : Type μ} (B : Stream R A) (into : A → S)
    (stream : IsStream B) where
  items_of :
      (xs : List A) (fuel : ℕ) (r : R)
      → B.messages r ≡ xs
      → length xs < fuel
      → items B into fuel (record { inner = r }) ≡ some (map into xs)
  unfolding items next
  items_of [] zero r e enough = absurd (omega arith)
  items_of [] (suc fuel) r e enough = rw (stream.recv_end r e, items) refl
  items_of (x ∷ xs) zero r e enough = absurd (omega arith)
  items_of (x ∷ xs) (suc fuel) r e enough =
      let (r', received, left) = stream.recv_next x xs r e in
      rw (received, items) (rw (items_of xs fuel r' left (omega (arith, enough))) refl)

  -- A loop over the iterator of a receiver ends after as many rounds as messages come, and one more
  -- that finds the senders gone: with any greater number as its fuel it yields the snapshots that
  -- the messages convert into, each once and in order.
  pub items-into_iter :
      (r : R) (fuel : ℕ)
      → length (B.messages r) < fuel
      → items B into fuel (into_iter (new r)) ≡ some (map into (B.messages r))
  items-into_iter r fuel enough = items_of (B.messages r) fuel r refl enough
