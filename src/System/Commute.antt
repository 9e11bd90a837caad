-- ===== src/System/Commute.antt =====
-- Turns of different threads do not depend on their order.
use contime.Prelude.{
  ℕ, ◌≡◌, ◌≢◌, refl, sym, ap, ◌∙◌, Bool, true, false, Option, none, some, some_injective,
  Option-cases, inl, inr, List, get_elem?, set, get_elem?-set_other, set_comm,
}
use contime.Prelude.Int.{ℤ}
use contime.Traits.{EventLanes}
use contime.Channel.{Channel}
use contime.Table.{Table}
use contime.History.{History}
use contime.Worker.{WorkerState, WorkerInbound, Reply, completed, answered, stopped, handle_inbound}
use contime.Worker.Memory.{essence, handle_inbound-usage}
use contime.System.{
  Mailbox, Thread, System, finish, settle, settle_result, state_of, receive, round, turn,
}

module _ {ℓ κ μ ν ξ} {S : Type ℓ} {E : Type κ} {C : Type μ} {M : Type ν} {Q : Type ξ}
    (L : EventLanes S E) (F : Channel C) (H : Table M (History S E C))
    (B : Mailbox Q (WorkerInbound S E)) (hash_one : ℕ → ℕ) (delta : ℤ) where
  -- a thread, its channel and its reply after a turn
  abbrev Local : Type (ℓ ⊔ μ ⊔ ν ⊔ ξ)
  Local = Thread M × Q × Option (Reply S C)

  abbrev ended : Thread M → Q → Local
  ended thread q = (record thread { is_alive = false }, B.close q, none)

  abbrev settled : Thread M → Q → Option (M × Reply S C) → Local
  settled thread q none = ended thread q
  settled thread q (some (h, stopped)) = ended thread q
  settled thread q (some (h, completed)) = (record thread { history_by_id = h }, q, some completed)
  settled thread q (some (h, answered a)) =
      (record thread { history_by_id = h }, q, some (answered a))

  abbrev at_zero : Thread M → WorkerState M
  at_zero thread = record { history_by_id = thread.history_by_id; memory_usage = 0 }

  unfoldable received : Thread M → Option (WorkerInbound S E × Q) → Option Local
  received thread none = none
  received thread (some (inbound, q)) = some (
      settled thread q
        (essence L.lane F H (handle_inbound L.lane F H delta inbound (at_zero thread))))

  -- what a turn makes of a thread and its channel, which nothing else has a part in
  unfoldable effect : Thread M → Q → Option Local
  effect thread q = elim thread.is_alive [
    | false ↦ none
    | true ↦ elim thread.is_running [
      | false ↦ some (ended thread q)
      | true ↦ received thread (B.recv q)
    ]
  ]

  -- a result without the counter of bytes
  abbrev View : Type (ℓ ⊔ μ ⊔ ν ⊔ ξ)
  View = List (Thread M) × List Q × Option (Reply S C)

  abbrev view : Option (System Q M × Option (Reply S C)) → Option View
  view none = none
  view (some (sys, reply)) = some (sys.threads, sys.router.workers, reply)

  abbrev place : ℕ → System Q M → Option Local → Option View
  place i sys none = none
  place i sys (some (thread, q, reply)) =
      some (set sys.threads i thread, set sys.router.workers i q, reply)

  settle_result-settled :
      (i : ℕ) (thread : Thread M) (q : Q) (o : Option (WorkerState M × Reply S C))
      (sys : System Q M)
      → view (some (settle_result L F H B hash_one delta i thread q o sys))
        ≡ place i sys (some (settled thread q (essence L.lane F H o)))
  unfolding settle_result settle finish
  settle_result-settled i thread q none sys = refl
  settle_result-settled i thread q (some (w, stopped)) sys = refl
  settle_result-settled i thread q (some (w, completed)) sys = refl
  settle_result-settled i thread q (some (w, answered a)) sys = refl

  receive-received :
      (i : ℕ) (thread : Thread M) (o : Option (WorkerInbound S E × Q)) (sys : System Q M)
      → view (receive L F H B hash_one delta i thread o sys) ≡ place i sys (received thread o)
  unfolding receive received
  receive-received i thread none sys = refl
  receive-received i thread (some (inbound, q)) sys =
      settle_result-settled i thread q
        (handle_inbound L.lane F H delta inbound
          (state_of L F H B hash_one delta thread sys.router))
        sys
      ∙ ap (λ o. place i sys (some (settled thread q o)))
          (handle_inbound-usage L.lane F H delta inbound 0
            (state_of L F H B hash_one delta thread sys.router))

  round-effect :
      (i : ℕ) (thread : Thread M) (q : Q) (sys : System Q M)
      → view (round L F H B hash_one delta i thread q sys) ≡ place i sys (effect thread q)
  unfolding round effect finish
  round-effect i thread q sys = by_flags thread.is_alive refl thread.is_running refl
    where
      by_flags :
          (alive : Bool)
          → thread.is_alive ≡ alive
          → (running : Bool) → thread.is_running ≡ running
          → view (round L F H B hash_one delta i thread q sys) ≡ place i sys (effect thread q)
      by_flags false e running f = simp (round, effect, e)
      by_flags true e false f = simp (round, effect, finish, e, f)
      by_flags true e true f = simp (round, effect, e, f, receive-received i thread (B.recv q) sys)

  turn-effect :
      (i : ℕ) (thread : Thread M) (q : Q) (sys : System Q M)
      → get_elem? sys.threads i ≡ some thread
      → get_elem? sys.router.workers i ≡ some q
      → view (turn L F H B hash_one delta i sys) ≡ place i sys (effect thread q)
  unfolding turn
  turn-effect i thread q sys e f = rw (turn, e) (rw f (round-effect i thread q sys))

  -- a turn that took place, by its thread and its channel
  abbrev Took : ℕ → System Q M → System Q M → Option (Reply S C) → Type (ℓ ⊔ μ ⊔ ν ⊔ ξ)
  Took i s t reply =
      (thread : Thread M) × (q : Q) × (thread' : Thread M) × (q' : Q) × (get_elem? s.threads i
        ≡ some thread)
      × (get_elem? s.router.workers i ≡ some q)
      × (effect thread q ≡ some (thread', q', reply))
      × (t.threads ≡ set s.threads i thread')
      × (t.router.workers ≡ set s.router.workers i q')

  placed-inversion :
      (i : ℕ) (sys t : System Q M) (reply : Option (Reply S C)) (o : Option Local)
      → some (t.threads, t.router.workers, reply) ≡ place i sys o
      → (thread' : Thread M) × (q' : Q) × (o ≡ some (thread', q', reply))
        × (t.threads ≡ set sys.threads i thread')
        × (t.router.workers ≡ set sys.router.workers i q')
  placed-inversion i sys t reply none e = cc
  placed-inversion i sys t reply (some (thread', q', r)) e =
      let same =
        some_injective (t.threads, t.router.workers, reply)
          (set sys.threads i thread', set sys.router.workers i q', r) e in
      (
        thread',
        q',
        ap (λ x. some (thread', q', x)) (sym (ap (λ p. p.2) same)),
        ap (λ p. p.0) same,
        ap (λ p. p.1) same,
      )

  turn-inversion :
      (i : ℕ) (s t : System Q M) (reply : Option (Reply S C))
      → turn L F H B hash_one delta i s ≡ some (t, reply)
      → Took i s t reply
  unfolding turn
  turn-inversion i s t reply e = elim (Option-cases (get_elem? s.threads i)) [
    | inl no_thread ↦ absurd (none_is_not (t, reply) (sym (rw (turn, no_thread) refl) ∙ e))
    | inr (thread, f) ↦ elim (Option-cases (get_elem? s.router.workers i)) [
      | inl no_channel ↦
          absurd (none_is_not (t, reply) (sym (rw (turn, f) (rw no_channel refl)) ∙ e))
      | inr (q, g) ↦
          let (thread', q', eff, threads, workers) =
            placed-inversion i s t reply (effect thread q)
              (sym (ap view e) ∙ turn-effect i thread q s f g) in
          (thread, q, thread', q', f, g, eff, threads, workers)
    ]
  ]
    where
      none_is_not : (x : System Q M × Option (Reply S C)) → Option.none ≡ some x → ⊥
      none_is_not x e = cc

  view-inversion :
      (o : Option (System Q M × Option (Reply S C))) (threads : List (Thread M)) (workers : List Q)
      (reply : Option (Reply S C))
      → view o ≡ some (threads, workers, reply)
      → (t : System Q M) × (o ≡ some (t, reply))
        × (t.threads ≡ threads)
        × (t.router.workers ≡ workers)
  view-inversion none threads workers reply e = cc
  view-inversion (some (t, r)) threads workers reply e =
      let same = some_injective (t.threads, t.router.workers, r) (threads, workers, reply) e in
      (t, ap (λ x. some (t, x)) (ap (λ p. p.2) same), ap (λ p. p.0) same, ap (λ p. p.1) same)

  turn-forward :
      (i : ℕ) (s : System Q M) (thread thread' : Thread M) (q q' : Q) (reply : Option (Reply S C))
      → get_elem? s.threads i ≡ some thread
      → get_elem? s.router.workers i ≡ some q
      → effect thread q ≡ some (thread', q', reply)
      → (t : System Q M) × (turn L F H B hash_one delta i s ≡ some (t, reply))
        × (t.threads ≡ set s.threads i thread')
        × (t.router.workers ≡ set s.router.workers i q')
  turn-forward i s thread thread' q q' reply e f g =
      view-inversion (turn L F H B hash_one delta i s) (set s.threads i thread')
        (set s.router.workers i q') reply (turn-effect i thread q s e f ∙ ap (place i s) g)

  -- a turn of one thread leaves room for the same turn of another
  after_other :
      (i j : ℕ) (s s' : System Q M) (thread thread' other : Thread M) (q q' p : Q)
      → i ≢ j
      → s'.threads ≡ set s.threads i thread'
      → s'.router.workers ≡ set s.router.workers i q'
      → get_elem? s.threads j ≡ some other
      → get_elem? s.router.workers j ≡ some p
      → (get_elem? s'.threads j ≡ some other) × (get_elem? s'.router.workers j ≡ some p)
  after_other i j s s' thread thread' other q q' p h e f g k = (
    ap (λ l. get_elem? l j) e ∙ get_elem?-set_other s.threads i j thread' h ∙ g,
    ap (λ l. get_elem? l j) f ∙ get_elem?-set_other s.router.workers i j q' h ∙ k,
  )

  -- Where two different threads can both take their turn, each can still take it after the other,
  -- with the same reply; both orders end with the same histories, the same flags and the same
  -- channels. (The shared counter of bytes may differ: its additions saturate.)
  pub turns_commute :
      (i j : ℕ) (s s₁ s₂ : System Q M) (reply₁ reply₂ : Option (Reply S C))
      → i ≢ j
      → turn L F H B hash_one delta i s ≡ some (s₁, reply₁)
      → turn L F H B hash_one delta j s ≡ some (s₂, reply₂)
      → (t₁ t₂ : System Q M) × (turn L F H B hash_one delta j s₁ ≡ some (t₁, reply₂))
        × (turn L F H B hash_one delta i s₂ ≡ some (t₂, reply₁))
        × (t₁.threads ≡ t₂.threads)
        × (t₁.router.workers ≡ t₂.router.workers)
  turns_commute i j s s₁ s₂ reply₁ reply₂ h e₁ e₂ =
      let (a, p, a', p', at_a, at_p, eff₁, threads₁, workers₁) = turn-inversion i s s₁ reply₁ e₁ in
      let (b, q, b', q', at_b, at_q, eff₂, threads₂, workers₂) = turn-inversion j s s₂ reply₂ e₂ in
      let room₁ = after_other i j s s₁ a a' b p p' q h threads₁ workers₁ at_b at_q in
      let room₂ = after_other j i s s₂ b b' a q q' p (λ x. h (sym x)) threads₂ workers₂ at_a at_p in
      let (t₁, f₁, threads₁', workers₁') =
        turn-forward j s₁ b b' q q' reply₂ room₁.0 room₁.1 eff₂ in
      let (t₂, f₂, threads₂', workers₂') =
        turn-forward i s₂ a a' p p' reply₁ room₂.0 room₂.1 eff₁ in
      (
        t₁,
        t₂,
        f₁,
        f₂,
        threads₁'
            ∙ ap (λ l. set l j b') threads₁
            ∙ set_comm s.threads i j a' b' h
            ∙ sym (threads₂' ∙ ap (λ l. set l i a') threads₂),
        workers₁'
            ∙ ap (λ l. set l j q') workers₁
            ∙ set_comm s.router.workers i j p' q' h
            ∙ sym (workers₂' ∙ ap (λ l. set l i p') workers₂),
      )
