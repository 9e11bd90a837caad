-- ===== src/Handle/Repeated.antt =====
-- src/handle.rs: `try_recv` again and again. A handle that is polled until it is done gives what
-- the wait that blocks gives.
use contime.Prelude.{
  any, any_none, any_some, ℕ, zero, suc, ◌+◌, ◌<◌, ◌≤◌, ◌≡◌, refl, sym, ap, ap₂, ◌∙◌, Bool, true,
  false, Bool-cases, Option, none, some, Option-cases, ◌⊎◌, inl, inr, List, [], ◌∷◌, length, ltb,
  arith,
}
use contime.Handle.{
  worker_dropped, Result, ok, err, received, wait, try_recv_loop, is_done, try_recv,
}
use contime.Handle.Polling.{is_disconnected, is_empty, verdict, try_recv-verdict}
use contime.Handle.Waiting.{poll_at, AllDue}
use contime.Handle.Left.{Keeps, keeps}

module _ {ℓ} {R : Type ℓ} (recv : R → Option (Unit {0})) (due : R → ℕ) where
  abbrev done_of : Result (Option (Unit {0})) → Option (Result (Unit {0}))
  done_of (ok none) = none
  done_of (ok (some u)) = some (ok u)
  done_of (err e) = some (err e)

  -- `try_recv` at one time after the other, until the handle is done
  unfoldable pub poll_until : ℕ → ℕ → List R → Option (Result (Unit {0}))
  poll_until zero time rxs = done_of (try_recv (poll_at recv due time) rxs).0
  poll_until (suc more) time rxs =
      let r = try_recv (poll_at recv due time) rxs in
      elim (done_of r.0) [ some result ↦ some result | none ↦ poll_until more (suc time) r.1 ]

  abbrev is_gone : R → Bool
  is_gone rx = elim (recv rx) [ none ↦ true | some u ↦ false ]

  abbrev is_late : ℕ → R → Bool
  is_late end rx = ltb end (due rx)

  abbrev gone_or_done : Bool → Result (Unit {0})
  gone_or_done true = err worker_dropped
  gone_or_done false = ok tt

  wait-any : (rxs : List R) → wait recv rxs ≡ gone_or_done (any is_gone rxs)
  unfolding wait
  wait-any [] = refl
  wait-any (rx ∷ rxs) = elim (Option-cases (recv rx)) [
    | inl gone ↦ rw (wait, is_gone, gone) refl
    | inr (u, here) ↦ rw (wait, is_gone, here) (wait-any rxs)
  ]

  disconnected_gone :
      (time : ℕ) (rx : R) → is_disconnected (poll_at recv due time) rx ≡ true → is_gone rx ≡ true
  disconnected_gone time rx = by_cases (ltb time (due rx)) refl (recv rx) refl
    where
      by_cases :
          (b : Bool)
          → ltb time (due rx) ≡ b
          → (o : Option (Unit {0})) → recv rx ≡ o
          → is_disconnected (poll_at recv due time) rx ≡ true
          → is_gone rx ≡ true
      by_cases true e o f = rw (is_disconnected, e) (λ h. cc)
      by_cases false e none f = rw (is_gone, f) (λ h. refl)
      by_cases false e (some u) f = rw (is_disconnected, e) (rw f (λ h. cc))

  here_not_gone :
      (time : ℕ) (rx : R)
      → is_disconnected (poll_at recv due time) rx ≡ false
      → is_empty (poll_at recv due time) rx ≡ false
      → is_gone rx ≡ false
  here_not_gone time rx = by_cases (ltb time (due rx)) refl (recv rx) refl
    where
      by_cases :
          (b : Bool)
          → ltb time (due rx) ≡ b
          → (o : Option (Unit {0})) → recv rx ≡ o
          → is_disconnected (poll_at recv due time) rx ≡ false
          → is_empty (poll_at recv due time) rx ≡ false
          → is_gone rx ≡ false
      by_cases true e o f = rw (is_empty, e) (λ g h. cc)
      by_cases false e none f = rw (is_disconnected, e) (rw f (λ g h. cc))
      by_cases false e (some u) f = rw (is_gone, f) (λ g h. refl)

  received_here :
      (time : ℕ) (rx : R) (u : Unit {0})
      → poll_at recv due time rx ≡ received u
      → (is_gone rx ≡ false) × (ltb time (due rx) ≡ false)
  received_here time rx u = by_cases (ltb time (due rx)) refl (recv rx) refl
    where
      by_cases :
          (b : Bool)
          → ltb time (due rx) ≡ b
          → (o : Option (Unit {0})) → recv rx ≡ o
          → poll_at recv due time rx ≡ received u
          → (is_gone rx ≡ false) × (ltb time (due rx) ≡ false)
      by_cases true e o f = rw e (λ h. cc)
      by_cases false e none f = rw (e, f) (λ h. cc)
      by_cases false e (some v) f = λ h. (rw (is_gone, f) refl, e)

  late_empty :
      (time end : ℕ) (rx : R)
      → end ≤ time
      → is_empty (poll_at recv due time) rx ≡ true
      → is_late end rx ≡ true
  late_empty time end rx le = by_cases (ltb time (due rx)) refl (recv rx) refl
    where
      by_cases :
          (b : Bool)
          → ltb time (due rx) ≡ b
          → (o : Option (Unit {0})) → recv rx ≡ o
          → is_empty (poll_at recv due time) rx ≡ true
          → is_late end rx ≡ true
      by_cases true e o f = λ h. ground (arith, e, le)
      by_cases false e none f = rw (is_empty, e) (rw f (λ h. cc))
      by_cases false e (some u) f = rw (is_empty, e) (rw f (λ h. cc))

  -- the call is over with the result of the wait, or some reply is not there yet, and what is left
  -- agrees on every test that fails for the receivers that have a message
  abbrev IsStep : ℕ → List R → Type ℓ
  IsStep time rxs =
      (done_of (try_recv (poll_at recv due time) rxs).0 ≡ some (wait recv rxs))
      ⊎ ((done_of (try_recv (poll_at recv due time) rxs).0 ≡ none)
          × (any (is_empty (poll_at recv due time)) rxs ≡ true)
          × ((p : R → Bool)
              → ((x : R) (u : Unit {0}) → poll_at recv due time x ≡ received u → p x ≡ false)
              → any p (try_recv (poll_at recv due time) rxs).1 ≡ any p rxs))

  loop_ok :
      (r : Result (Unit {0})) (left : List R) (time : ℕ)
      → is_done (poll_at recv due time) r left ≡ ok none
      → r ≡ ok tt
  loop_ok (ok u) left time e = refl
  loop_ok (err x) left time e = cc

  step : (time : ℕ) (rxs : List R) → IsStep time rxs
  unfolding try_recv Keeps
  step time rxs =
      by_verdict (any (is_disconnected (poll_at recv due time)) rxs) refl
        (any (is_empty (poll_at recv due time)) rxs) refl
        (try_recv-verdict (poll_at recv due time) rxs)
    where
      by_verdict :
          (d : Bool)
          → any (is_disconnected (poll_at recv due time)) rxs ≡ d
          → (e : Bool) → any (is_empty (poll_at recv due time)) rxs ≡ e
          → (try_recv (poll_at recv due time) rxs).0
            ≡ verdict
                (poll_at recv due time)
                (any (is_disconnected (poll_at recv due time)) rxs)
                (any (is_empty (poll_at recv due time)) rxs)
          → IsStep time rxs
      by_verdict true d e f v = inl (
          ap done_of (
            v
            ∙ ap
                (λ b.
                  verdict (poll_at recv due time) b (any (is_empty (poll_at recv due time)) rxs))
                d)
          ∙ ap some (
              sym (
                wait-any rxs
                ∙ ap gone_or_done (
                    any_some (is_disconnected (poll_at recv due time)) is_gone
                      (disconnected_gone time) rxs d))))
      by_verdict false d false f v = inl (
          ap done_of (v ∙ ap₂ (verdict (poll_at recv due time)) d f)
          ∙ ap some (
              sym (
                wait-any rxs
                ∙ ap gone_or_done (
                    any_none (is_disconnected (poll_at recv due time))
                      (is_empty (poll_at recv due time)) is_gone (here_not_gone time) rxs d f))))
      by_verdict false d true f v =
          let pending = v ∙ ap₂ (verdict (poll_at recv due time)) d f in
          inr (
            ap done_of pending,
            f,
            λ p h. keeps (poll_at recv due time) p h (length rxs) [] rxs refl (
                loop_ok (try_recv_loop (poll_at recv due time) (length rxs) 0 rxs).0
                  (try_recv_loop (poll_at recv due time) (length rxs) 0 rxs).1 time pending),
          )

  not_late :
      (time end : ℕ) (rxs : List R)
      → any (is_late end) rxs ≡ false
      → any (is_empty (poll_at recv due time)) rxs ≡ true
      → end ≤ time
      → ⊥
  not_late time end rxs d waits le = true_is_not (
      sym (
        any_some (is_empty (poll_at recv due time)) (is_late end) (λ x. late_empty time end x le)
          rxs waits)
      ∙ d)
    where
      true_is_not : true ≡ false → ⊥
      true_is_not e = cc

  received_in_time :
      (time end : ℕ) (rx : R) (u : Unit {0})
      → time < end
      → poll_at recv due time rx ≡ received u
      → is_late end rx ≡ false
  received_in_time time end rx u lt e = ground (arith, lt, (received_here time rx u e).1)

  all_in_time : (end : ℕ) (rxs : List R) → AllDue recv due end rxs → any (is_late end) rxs ≡ false
  all_in_time end [] d = refl
  all_in_time end (rx ∷ rxs) d = ground (arith, d.0, all_in_time end rxs d.1)

  run :
      (more time end : ℕ) (rxs : List R)
      → any (is_late end) rxs ≡ false
      → end ≤ time + more
      → poll_until more time rxs ≡ some (wait recv rxs)
  unfolding poll_until
  run zero time end rxs d le = elim (step time rxs) [
    | inl e ↦ e
    | inr (e, waits, keep) ↦ absurd (not_late time end rxs d waits (omega (arith, le)))
  ]
  run (suc more) time end rxs d le = elim (step time rxs) [
    | inl e ↦ rw (poll_until, e) refl
    | inr (e, waits, keep) ↦ elim (Bool-cases (ltb time end)) [
      | inr late ↦ absurd (not_late time end rxs d waits (ground (arith, late)))
      | inl early ↦
          rw (poll_until, e)
            (run more (suc time) end (try_recv (poll_at recv due time) rxs).1
                (keep (is_late end)
                    (λ x u q. received_in_time time end x u (ground (arith, early)) q)
                  ∙ d)
                (omega (arith, le))
              ∙ ap some (
                  wait-any (try_recv (poll_at recv due time) rxs).1
                  ∙ ap gone_or_done (keep is_gone (λ x u q. (received_here time x u q).0))
                  ∙ sym (wait-any rxs)))
    ]
  ]

  -- Where every reply is due, or its sender gone, by some time: a handle on which `try_recv` is
  -- called at one time after the other, from before that time up to it, is done by then, and gives
  -- what the wait that blocks gives, whatever order the replies come in: the error where a worker
  -- was dropped before its reply, else success.
  pub poll_until-wait :
      (more time end : ℕ) (rxs : List R)
      → AllDue recv due end rxs
      → end ≤ time + more
      → poll_until more time rxs ≡ some (wait recv rxs)
  poll_until-wait more time end rxs d le = run more time end rxs (all_in_time end rxs d) le
