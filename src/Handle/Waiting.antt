-- ===== src/Handle/Waiting.antt =====
-- src/handle.rs: the asynchronous wait. A future that is polled until it is ready gives what the
-- wait that blocks gives.
use contime.Prelude.{
  ℕ, zero, suc, ◌+◌, ◌<◌, ◌≤◌, ◌≡◌, refl, ap, ◌∙◌, Bool, true, false, Option, none, some, ◌⊎◌, inl,
  inr, List, [], ◌∷◌, All, ltb, if◌then◌else◌, arith,
}
use contime.Handle.{Result, Polled, received, empty, disconnected, wait, poll_recv_async}

module _ {ℓ} {R : Type ℓ} (recv : R → Option (Unit {0})) (due : R → ℕ) where
  abbrev arrived : Option (Unit {0}) → Polled (Unit {0})
  arrived none = disconnected
  arrived (some u) = received u

  -- what a receiver shows at a time: nothing until its reply is due, or its sender gone
  abbrev pub poll_at : ℕ → R → Polled (Unit {0})
  poll_at time rx = if ltb time (due rx) then empty else arrived (recv rx)

  -- a runtime that polls the future at one time after the other, while it is pending
  unfoldable pub block_on : ℕ → ℕ → List R → Option (Result (Unit {0}))
  block_on zero time rxs = (poll_recv_async (poll_at time) rxs).0
  block_on (suc more) time rxs =
      let r = poll_recv_async (poll_at time) rxs in
      elim r.0 [ some result ↦ some result | none ↦ block_on more (suc time) r.1 ]

  -- all replies are due by a time
  abbrev pub AllDue : ℕ → List R → Type 0
  AllDue end rxs = All (λ rx. due rx ≤ end) rxs

  abbrev pub result : List R → Result (Unit {0})
  result rxs = wait recv rxs

  -- a poll gives a result, or is pending before the end, and leaves receivers that give it
  abbrev Agrees : ℕ → ℕ → Result (Unit {0}) → Option (Result (Unit {0})) × List R → Type 0
  Agrees time end w r =
      (r.0 ≡ some w) ⊎ ((r.0 ≡ none) × (time < end) × (result r.1 ≡ w) × AllDue end r.1)

  by_poll :
      (time end : ℕ) (rx : R) (rxs : List R)
      → due rx ≤ end
      → AllDue end rxs
      → Agrees time end (result rxs) (poll_recv_async (poll_at time) rxs)
      → (b : Bool) → ltb time (due rx) ≡ b
      → (o : Option (Unit {0})) → recv rx ≡ o
      → Agrees time end (result (rx ∷ rxs)) (poll_recv_async (poll_at time) (rx ∷ rxs))
  unfolding poll_recv_async wait
  by_poll time end rx rxs d ds a true e o f =
      rw (poll_recv_async, e) (inr (refl, early, refl, (d, ds)))
    where
      early : time < end
      early = ground (arith, d, e)
  by_poll time end rx rxs d ds a false e none f =
      rw (poll_recv_async, result, wait, e, f) (inl refl)
  by_poll time end rx rxs d ds a false e (some u) f = rw (poll_recv_async, result, wait, e, f) a

  poll-Agrees :
      (time end : ℕ) (rxs : List R)
      → AllDue end rxs
      → Agrees time end (result rxs) (poll_recv_async (poll_at time) rxs)
  unfolding poll_recv_async wait
  poll-Agrees time end [] d = inl refl
  poll-Agrees time end (rx ∷ rxs) d =
      by_poll time end rx rxs d.0 d.1 (poll-Agrees time end rxs d.1) (ltb time (due rx)) refl
        (recv rx) refl

  -- Where every reply is due, or its sender gone, by some time: a future that is polled from a time
  -- before that on, at one time after the other, becomes ready by then, and gives what the wait
  -- that blocks gives: the error where a worker was dropped before its reply, else success.
  pub block_on-wait :
      (more time end : ℕ) (rxs : List R)
      → AllDue end rxs
      → end ≤ time + more
      → block_on more time rxs ≡ some (wait recv rxs)
  unfolding block_on
  block_on-wait zero time end rxs d h = elim (poll-Agrees time end rxs d) [
    | inl e ↦ e
    | inr (e, early, keeps, d') ↦ absurd (omega (arith, early, h))
  ]
  block_on-wait (suc more) time end rxs d h = elim (poll-Agrees time end rxs d) [
    | inl e ↦ rw (block_on, e) refl
    | inr (e, early, keeps, d') ↦
        rw (block_on, e)
          (block_on-wait more (suc time) end (poll_recv_async (poll_at time) rxs).1 d'
              (omega (arith, h))
            ∙ ap some keeps)
  ]
