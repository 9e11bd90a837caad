-- ===== src/System/Progress.antt =====
-- Turns come to an end, and where updates wait at living threads, all of them are handled.
use contime.Prelude.{
  ℕ, zero, suc, ◌+◌, ◌<◌, ◌≤◌, ◌≡◌, refl, ap, true, false, Option, none, some, Option-cases,
  Bool-cases, inl, inr, length, get_elem?, sum_of, sum_of-set, arith, subst, if◌then◌else◌,
}
use contime.Prelude.Int.{ℤ}
use contime.Traits.{EventLanes}
use contime.Channel.{Channel}
use contime.Table.{Table, IsTable}
use contime.History.{History}
use contime.Worker.{WorkerState, WorkerInbound, Reply, completed, answered, stopped, handle_inbound}
use contime.System.{
  Mailbox, IsFifo, Thread, System, finish, settle, settle_result, state_of, receive, round, turn,
}
use contime.System.Invariant.{recv_inversion}

module _ {ℓ κ μ ν ξ} {S : Type ℓ} {E : Type κ} {C : Type μ} {M : Type ν} {Q : Type ξ}
    (L : EventLanes S E) (F : Channel C) (H : Table M (History S E C)) (table : IsTable H)
    (B : Mailbox Q (WorkerInbound S E)) (fifo : IsFifo B) (hash_one : ℕ → ℕ) (delta : ℤ)
    (n : ℕ) where
  abbrev pub backlog : Q → ℕ
  backlog q = length (B.waiting q)

  abbrev pub life : Thread M → ℕ
  life thread = if thread.is_alive then 1 else 0

  -- the messages that wait, and the threads that live
  abbrev pub work : System Q M → ℕ
  work sys = sum_of backlog sys.router.workers + sum_of life sys.threads

  finish-work :
      (i : ℕ) (thread : Thread M) (q q' : Q) (sys : System Q M)
      → get_elem? sys.threads i ≡ some thread
      → get_elem? sys.router.workers i ≡ some q
      → thread.is_alive ≡ true
      → work (finish L F H B hash_one delta i thread q' sys) < work sys
  unfolding finish
  finish-work i thread q q' sys e f alive =
      let closed : backlog (B.close q') ≡ 0 = ap length (fifo.waiting-close q') in
      let living : life thread ≡ 1 = rw alive refl in
      omega (
        arith,
        closed,
        living,
        sum_of-set backlog sys.router.workers i q (B.close q') f,
        sum_of-set life sys.threads i thread (record thread { is_alive = false }) e,
      )

  settle-work :
      (i : ℕ) (thread : Thread M) (q q' : Q) (w : WorkerState M) (sys : System Q M)
      → get_elem? sys.threads i ≡ some thread
      → get_elem? sys.router.workers i ≡ some q
      → backlog q ≡ suc (backlog q')
      → work (settle L F H B hash_one delta i thread q' w sys) < work sys
  unfolding settle
  settle-work i thread q q' w sys e f less = omega (
    arith,
    less,
    sum_of-set backlog sys.router.workers i q q' f,
    sum_of-set life sys.threads i thread (record thread { history_by_id = w.history_by_id }) e,
  )

  -- there is less work left
  abbrev Falls : ℕ → Option (System Q M × Option (Reply S C)) → Type 0
  Falls before none = Unit {0}
  Falls before (some result) = work result.0 < before

  result-work :
      (i : ℕ) (thread : Thread M) (q q' : Q) (result : Option (WorkerState M × Reply S C))
      (sys : System Q M)
      → get_elem? sys.threads i ≡ some thread
      → get_elem? sys.router.workers i ≡ some q
      → thread.is_alive ≡ true
      → backlog q ≡ suc (backlog q')
      → work (settle_result L F H B hash_one delta i thread q' result sys).0 < work sys
  unfolding settle_result
  result-work i thread q q' none sys e f alive less = finish-work i thread q q' sys e f alive
  result-work i thread q q' (some (w, stopped)) sys e f alive less =
      finish-work i thread q q' sys e f alive
  result-work i thread q q' (some (w, completed)) sys e f alive less =
      settle-work i thread q q' w sys e f less
  result-work i thread q q' (some (w, answered a)) sys e f alive less =
      settle-work i thread q q' w sys e f less

  round-Falls :
      (i : ℕ) (thread : Thread M) (q : Q) (sys : System Q M)
      → get_elem? sys.threads i ≡ some thread
      → get_elem? sys.router.workers i ≡ some q
      → Falls (work sys) (round L F H B hash_one delta i thread q sys)
  unfolding round receive
  round-Falls i thread q sys e f = elim (Bool-cases thread.is_alive) [
    | inr over ↦ rw (round, over) tt
    | inl alive ↦ elim (Bool-cases thread.is_running) [
      | inr stopping ↦ rw (round, alive) (rw stopping (finish-work i thread q q sys e f alive))
      | inl running ↦ elim (Option-cases (B.recv q)) [
        | inl waits ↦ rw (round, alive) (rw running (rw waits tt))
        | inr ((inbound, q'), taken) ↦
            rw (round, alive)
              (rw running (
                rw taken (
                  result-work i thread q q'
                    (handle_inbound L.lane F H delta inbound
                      (state_of L F H B hash_one delta thread sys.router))
                    sys e f alive
                    (ap length
                      (recv_inversion L F H table B fifo hash_one delta n q q' inbound taken)))))
      ]
    ]
  ]

  turn-Falls : (i : ℕ) (sys : System Q M) → Falls (work sys) (turn L F H B hash_one delta i sys)
  unfolding turn
  turn-Falls i sys = elim (Option-cases (get_elem? sys.threads i)) [
    | inl none_there ↦ rw (turn, none_there) tt
    | inr (thread, e) ↦ elim (Option-cases (get_elem? sys.router.workers i)) [
      | inl none_there ↦ rw (turn, e) (rw none_there tt)
      | inr (q, f) ↦ rw (turn, e) (rw f (round-Falls i thread q sys e f))
    ]
  ]

  -- some turns, one after the other, of any threads
  pub data Turns : ℕ → System Q M → System Q M → Type (ℓ ⊔ κ ⊔ μ ⊔ ν ⊔ ξ) where
    none_left : (sys : System Q M) → Turns zero sys sys
    next :
        (i k : ℕ) (s t u : System Q M) (reply : Option (Reply S C))
        → turn L F H B hash_one delta i s ≡ some (t, reply)
        → Turns k t u
        → Turns (suc k) s u

  -- Whatever the order of the turns, and whatever panics or stops on the way: without new calls
  -- there are at most as many turns as messages wait and threads live, and each makes this work
  -- less by one at least.
  pub Turns-le : {k : ℕ} {s t : System Q M} → Turns k s t → k + work t ≤ work s
  Turns-le (none_left sys) = omega arith
  Turns-le (next i k s t u reply e r) =
      let falls : work t < work s = subst (Falls (work s)) e (turn-Falls i s) in
      omega (arith, Turns-le r)
