-- ===== src/System/Drain.antt =====
-- Threads that live handle the updates that wait for them.
use contime.Prelude.{
  ℕ, zero, suc, ◌≡◌, refl, sym, ap, ◌∙◌, true, some, List, [], ◌∷◌, All, length, get_elem?,
  get_elem?-lt, lt-get_elem?, AllAt, AllAt-set, sum_of, sum_of-set, sum_of_positive, sum_of_zero,
  arith, subst,
}
use contime.Prelude.Int.{ℤ}
use contime.Traits.{EventLanes}
use contime.Channel.{Channel}
use contime.Table.{Table, IsTable}
use contime.History.{History}
use contime.Worker.{
  WorkerState, WorkerInbound, event, snapshot, snapshot_at_time, advance_time, shutdown, completed,
  handle_inbound,
}
use contime.Worker.Sound.{IsUpdate, handle_inbound-Holds}
use contime.System.{
  Mailbox, IsFifo, Thread, System, settle, settle_result, state_of, receive, round, turn, Reach,
}
use contime.System.Calls.{IsHome, Belongs}
use contime.System.Invariant.{IsSafe, settle-IsSafe}
use contime.System.Safety.{Reach-IsSafe}
use contime.System.Progress.{backlog}

module _ {ℓ κ μ ν ξ} {S : Type ℓ} {E : Type κ} {C : Type μ} {M : Type ν} {Q : Type ξ}
    (L : EventLanes S E) (F : Channel C) (H : Table M (History S E C)) (table : IsTable H)
    (B : Mailbox Q (WorkerInbound S E)) (fifo : IsFifo B) (hash_one : ℕ → ℕ) (delta : ℤ)
    (n : ℕ) where
  -- a message that changes histories
  abbrev pub IsChange : WorkerInbound S E → Type 0
  IsChange (event k e s) = Unit {0}
  IsChange (snapshot s) = Unit {0}
  IsChange (advance_time t) = Unit {0}
  IsChange (snapshot_at_time k t) = ⊥
  IsChange shutdown = ⊥

  abbrev pub IsUp : Thread M → Type 0
  IsUp thread = (thread.is_alive ≡ true) × (thread.is_running ≡ true)

  -- all threads are up, and only changes wait for them
  pub record IsReady (sys : System Q M) : Type (ν ⊔ ξ) where
    pub up : AllAt (λ i. IsUp) sys.threads
    pub changes : AllAt (λ i q. All IsChange (B.waiting q)) sys.router.workers

  abbrev pub IsDrained : System Q M → Type (ℓ ⊔ κ ⊔ ξ)
  IsDrained sys = AllAt (λ i q. B.waiting q ≡ []) sys.router.workers

  -- turns of any threads, each of which replies that a message is handled
  pub data Completions : ℕ → System Q M → System Q M → Type (ℓ ⊔ κ ⊔ μ ⊔ ν ⊔ ξ) where
    all_done : (sys : System Q M) → Completions zero sys sys
    one_done :
        (i k : ℕ) (s t u : System Q M)
        → turn L F H B hash_one delta i s ≡ some (t, some completed)
        → Completions k t u
        → Completions (suc k) s u

  Belongs-IsUpdate :
      (i : ℕ) (inbound : WorkerInbound S E)
      → Belongs L B fifo hash_one n i inbound
      → IsChange inbound
      → IsUpdate L.lane F H (IsHome L B fifo hash_one n i) inbound
  Belongs-IsUpdate i (event k e s) b c = b
  Belongs-IsUpdate i (snapshot s) b c = b
  Belongs-IsUpdate i (advance_time t) b c = tt
  Belongs-IsUpdate i (snapshot_at_time k t) b c = absurd c
  Belongs-IsUpdate i shutdown b c = absurd c

  pub turn-round :
      (i : ℕ) (thread : Thread M) (q : Q) (sys : System Q M)
      → get_elem? sys.threads i ≡ some thread
      → get_elem? sys.router.workers i ≡ some q
      → turn L F H B hash_one delta i sys ≡ round L F H B hash_one delta i thread q sys
  unfolding turn
  turn-round i thread q sys e f = rw (turn, e) (rw f refl)

  pub round-receive :
      (i : ℕ) (thread : Thread M) (q : Q) (sys : System Q M)
      → IsUp thread
      → round L F H B hash_one delta i thread q sys
        ≡ receive L F H B hash_one delta i thread (B.recv q) sys
  unfolding round
  round-receive i thread q sys up = simp (round, up.0, up.1)

  receive-handled :
      (i : ℕ) (thread : Thread M) (q' : Q) (inbound : WorkerInbound S E) (w : WorkerState M)
      (sys : System Q M)
      → handle_inbound L.lane F H delta inbound (state_of L F H B hash_one delta thread sys.router)
        ≡ some (w, completed)
      → receive L F H B hash_one delta i thread (some (inbound, q')) sys
        ≡ some (settle L F H B hash_one delta i thread q' w sys, some completed)
  unfolding receive settle_result
  receive-handled i thread q' inbound w sys done =
      ap (λ o. some (settle_result L F H B hash_one delta i thread q' o sys)) done

  turn-handled :
      (i : ℕ) (thread : Thread M) (q q' : Q) (inbound : WorkerInbound S E) (w : WorkerState M)
      (sys : System Q M)
      → get_elem? sys.threads i ≡ some thread
      → get_elem? sys.router.workers i ≡ some q
      → IsUp thread
      → B.recv q ≡ some (inbound, q')
      → handle_inbound L.lane F H delta inbound (state_of L F H B hash_one delta thread sys.router)
        ≡ some (w, completed)
      → turn L F H B hash_one delta i sys
        ≡ some (settle L F H B hash_one delta i thread q' w sys, some completed)
  turn-handled i thread q q' inbound w sys e f up taken done =
      turn-round i thread q sys e f
      ∙ round-receive i thread q sys up
      ∙ ap (λ o. receive L F H B hash_one delta i thread o sys) taken
      ∙ receive-handled i thread q' inbound w sys done

  settle-IsReady :
      (i : ℕ) (thread : Thread M) (q : Q) (w : WorkerState M) (sys : System Q M)
      → IsUp thread
      → All IsChange (B.waiting q)
      → IsReady sys
      → IsReady (settle L F H B hash_one delta i thread q w sys)
  unfolding settle
  settle-IsReady i thread q w sys up changes v = record {
    up =
        AllAt-set (λ j. IsUp) sys.threads i (record thread { history_by_id = w.history_by_id }) v.up
          up;
    changes =
        AllAt-set (λ j p. All IsChange (B.waiting p)) sys.router.workers i q v.changes changes;
  }

  settle-backlog :
      (i m k : ℕ) (thread : Thread M) (q q' : Q) (w : WorkerState M) (sys : System Q M)
      → get_elem? sys.router.workers i ≡ some q
      → backlog L F H table B fifo hash_one delta n q ≡ suc k
      → backlog L F H table B fifo hash_one delta n q' ≡ k
      → sum_of (backlog L F H table B fifo hash_one delta n) sys.router.workers ≡ suc m
      → sum_of
          (backlog L F H table B fifo hash_one delta n)
          (settle L F H B hash_one delta i thread q' w sys).router.workers
        ≡ m
  unfolding settle
  settle-backlog i m k thread q q' w sys f b b' e = omega (
    arith,
    e,
    b,
    b',
    sum_of-set (backlog L F H table B fifo hash_one delta n) sys.router.workers i q q' f,
  )

  -- one message of a channel in which some wait
  advance_once :
      (i m k : ℕ) (q : Q) (waiting : List (WorkerInbound S E)) (sys : System Q M)
      → B.waiting q ≡ waiting
      → get_elem? sys.router.workers i ≡ some q
      → backlog L F H table B fifo hash_one delta n q ≡ suc k
      → IsSafe L F H table B fifo hash_one delta n sys
      → IsReady sys
      → sum_of (backlog L F H table B fifo hash_one delta n) sys.router.workers ≡ suc m
      → (t : System Q M) × (turn L F H B hash_one delta i sys ≡ some (t, some completed))
        × IsSafe L F H table B fifo hash_one delta n t
        × IsReady t
        × (sum_of (backlog L F H table B fifo hash_one delta n) t.router.workers ≡ m)
  advance_once i m k q [] sys e f b v r total = absurd (omega (arith, b, ap length e))
  advance_once i m k q (inbound ∷ rest) sys e f b v r total =
      let (thread, g) =
        get_elem?-lt sys.threads i
          (omega (arith, lt-get_elem? sys.router.workers i q f, v.routed.count, v.count)) in
      let (q', taken, left) = fifo.recv_next inbound rest q e in
      let belongs = subst (All (Belongs L B fifo hash_one n i)) e (v.routed.messages i q f) in
      let changes = subst (All IsChange) e (r.changes i q f) in
      let (w, done, house) =
        handle_inbound-Holds L.lane F H (IsHome L B fifo hash_one n i) table delta inbound
          (state_of L F H B hash_one delta thread sys.router)
          (Belongs-IsUpdate i inbound belongs.0 changes.0) (v.housed i thread g) in
      (
        settle L F H B hash_one delta i thread q' w sys,
        turn-handled i thread q q' inbound w sys g f (r.up i thread g) taken done,
        settle-IsSafe L F H table B fifo hash_one delta n i thread q' w sys house
            (subst (All (Belongs L B fifo hash_one n i)) (sym left) belongs.1) v,
        settle-IsReady i thread q' w sys (r.up i thread g)
            (subst (All IsChange) (sym left) changes.1) r,
        settle-backlog i m k thread q q' w sys f b (omega (arith, b, ap length e, ap length left))
            total,
      )

  drain_all :
      (m : ℕ) (sys : System Q M)
      → IsSafe L F H table B fifo hash_one delta n sys
      → IsReady sys
      → sum_of (backlog L F H table B fifo hash_one delta n) sys.router.workers ≡ m
      → (t : System Q M) × Completions m sys t × IsDrained t
  drain_all zero sys v r total = (
    sys,
    all_done sys,
    λ i q f.
        nil_of_length (B.waiting q) (
          sum_of_zero (backlog L F H table B fifo hash_one delta n) sys.router.workers total i q f),
  )
    where
      nil_of_length : (xs : List (WorkerInbound S E)) → length xs ≡ 0 → xs ≡ []
      nil_of_length [] e = refl
      nil_of_length (x ∷ xs) e = absurd (omega (arith, e))
  drain_all (suc m) sys v r total =
      let (i, q, k, f, b) =
        sum_of_positive (backlog L F H table B fifo hash_one delta n) sys.router.workers m total in
      let (t, e, v', r', total') = advance_once i m k q (B.waiting q) sys refl f b v r total in
      let (u, more, drained) = drain_all m t v' r' total' in
      (u, one_done i m sys t u e more, drained)

  -- In a reachable system whose threads are all up, and where only events, snapshots and advances
  -- wait: there are as many turns as messages wait, each of which replies that its message is
  -- handled, after which no message waits. No thread panics or is stuck on the way.
  pub drains :
      {budget : ℕ} {sys : System Q M}
      → Reach L F H B hash_one delta n budget sys
      → IsReady sys
      → (t : System Q M) × Completions
          (sum_of (backlog L F H table B fifo hash_one delta n) sys.router.workers)
          sys
          t
        × IsDrained t
  drains {sys = sys} reach r =
      drain_all (sum_of (backlog L F H table B fifo hash_one delta n) sys.router.workers) sys
        (Reach-IsSafe L F H table B fifo hash_one delta n reach) r refl
