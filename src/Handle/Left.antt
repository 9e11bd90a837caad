-- ===== src/Handle/Left.antt =====
-- src/handle.rs: what the loop of `try_recv` leaves in the list of receivers.
use contime.Prelude.{
  any, any-append, ℕ, zero, suc, ◌≡◌, refl, sym, ap, ◌∙◌, Bool, false, ◌||◌, List, [], ◌∷◌, ◌++◌,
  append_assoc, length, arith,
}
use contime.Handle.{ok, Polled, received, empty, disconnected, try_recv_loop}
use contime.Handle.Polling.{swap_remove_view, get_elem?-append, length-end}

module _ {ℓ} {R : Type ℓ} (poll : R → Polled (Unit {0})) where
  -- what the loop leaves, where it ends without an error, agrees on every test that fails for the
  -- receivers that have a message
  unfoldable pub Keeps : (R → Bool) → ℕ → Type ℓ
  Keeps p fuel =
      (pre rest : List R)
      → length rest ≡ fuel
      → (try_recv_loop poll fuel (length pre) (pre ++ rest)).0 ≡ ok tt
      → any p (try_recv_loop poll fuel (length pre) (pre ++ rest)).1 ≡ any p (pre ++ rest)

  polled-Keeps :
      (p : R → Bool) (fuel : ℕ)
      → ((x : R) (u : Unit {0}) → poll x ≡ received u → p x ≡ false)
      → Keeps p fuel
      → (pre : List R) (x : R) (rest : List R) → length rest ≡ fuel
      → (o : Polled (Unit {0})) → poll x ≡ o
      → (try_recv_loop poll (suc fuel) (length pre) (pre ++ x ∷ rest)).0 ≡ ok tt
      → any p (try_recv_loop poll (suc fuel) (length pre) (pre ++ x ∷ rest)).1
        ≡ any p (pre ++ x ∷ rest)
  unfolding try_recv_loop Keeps
  polled-Keeps p fuel none_received again pre x rest e (received u) q =
      let (rest', swapped, same_length, same_any) = swap_remove_view poll pre x rest in
      rw (try_recv_loop, get_elem?-append pre x rest)
        (rw (q, swapped)
          (λ done.
            again pre rest' (same_length ∙ e) done
            ∙ any-append p pre rest'
            ∙ ap (λ b. any p pre || b) (same_any p ∙ sym (rw (none_received x u q) refl))
            ∙ sym (any-append p pre (x ∷ rest))))
  polled-Keeps p fuel none_received again pre x rest e empty q =
      rw (try_recv_loop, get_elem?-append pre x rest)
        (rw q
          (rw (length-end pre x, append_assoc pre (x ∷ []) rest) at (again (pre ++ x ∷ []) rest e)))
  polled-Keeps p fuel none_received again pre x rest e disconnected q =
      rw (try_recv_loop, get_elem?-append pre x rest) (rw q (λ done. cc))

  pub keeps :
      (p : R → Bool)
      → ((x : R) (u : Unit {0}) → poll x ≡ received u → p x ≡ false)
      → (fuel : ℕ) → Keeps p fuel
  unfolding try_recv_loop Keeps
  keeps p h zero pre [] e done = refl
  keeps p h zero pre (x ∷ rest) e done = absurd (omega (arith, e))
  keeps p h (suc fuel) pre [] e done = absurd (omega (arith, e))
  keeps p h (suc fuel) pre (x ∷ rest) e done =
      polled-Keeps p fuel h (keeps p h fuel) pre x rest (omega (arith, e)) (poll x) refl done
