-- ===== src/System/Invariant.antt =====
-- What holds in every system that router calls, turns of threads and drops of workers lead to.
use contime.Prelude.{
  ℕ, ◌≡◌, refl, sym, ap, ap₂, ◌∙◌, false, Option, none, some, some_injective, Option-cases,
  Bool-cases, inl, inr, List, [], ◌∷◌, All, length, get_elem?, length-set, AllAt, AllAt-set, subst,
}
use contime.Prelude.Int.{ℤ}
use contime.Traits.{EventLanes}
use contime.Channel.{Channel}
use contime.Table.{Table, IsTable}
use contime.History.{History}
use contime.Worker.{
  WorkerState, WorkerInbound, event, snapshot, snapshot_at_time, advance_time, shutdown, Reply,
  answer, handle_inbound,
}
use contime.Worker.Sound.{Holds, IsUpdate, handle_inbound-Holds}
use contime.System.{
  Mailbox, IsFifo, Thread, System, finish, settle, settle_result, state_of, receive, round, turn,
}
use contime.System.Calls.{IsHome, Belongs, AllBelong, IsRouted}

module _ {ℓ κ μ ν ξ} {S : Type ℓ} {E : Type κ} {C : Type μ} {M : Type ν} {Q : Type ξ}
    (L : EventLanes S E) (F : Channel C) (H : Table M (History S E C)) (table : IsTable H)
    (B : Mailbox Q (WorkerInbound S E)) (fifo : IsFifo B) (hash_one : ℕ → ℕ) (delta : ℤ)
    (n : ℕ) where
  -- the histories of a thread are sound and have their home there
  abbrev pub IsHoused : ℕ → Thread M → Type 0
  IsHoused i thread = Holds L.lane F H (IsHome L B fifo hash_one n i) thread.history_by_id

  pub record IsSafe (sys : System Q M) : Type (ν ⊔ ξ) where
    pub routed : IsRouted L B fifo hash_one n sys.router
    pub count : length sys.threads ≡ n
    pub housed : AllAt IsHoused sys.threads

  finish-IsSafe :
      (i : ℕ) (thread : Thread M) (q : Q) (sys : System Q M)
      → IsHoused i thread
      → IsSafe sys
      → IsSafe (finish L F H B hash_one delta i thread q sys)
  unfolding finish
  finish-IsSafe i thread q sys house v = record {
    routed = record {
      count = length-set sys.router.workers i (B.close q) ∙ v.routed.count;
      messages =
          AllAt-set (AllBelong L B fifo hash_one n) sys.router.workers i (B.close q)
            v.routed.messages (rw (fifo.waiting-close q) tt);
    };
    count = length-set sys.threads i (record thread { is_alive = false }) ∙ v.count;
    housed = AllAt-set IsHoused sys.threads i (record thread { is_alive = false }) v.housed house;
  }

  pub settle-IsSafe :
      (i : ℕ) (thread : Thread M) (q : Q) (w : WorkerState M) (sys : System Q M)
      → Holds L.lane F H (IsHome L B fifo hash_one n i) w.history_by_id
      → AllBelong L B fifo hash_one n i q
      → IsSafe sys
      → IsSafe (settle L F H B hash_one delta i thread q w sys)
  unfolding settle
  settle-IsSafe i thread q w sys house belong v = record {
    routed = record {
      count = length-set sys.router.workers i q ∙ v.routed.count;
      messages =
          AllAt-set (AllBelong L B fifo hash_one n) sys.router.workers i q v.routed.messages belong;
    };
    count = length-set sys.threads i (record thread { history_by_id = w.history_by_id }) ∙ v.count;
    housed =
        AllAt-set IsHoused sys.threads i (record thread { history_by_id = w.history_by_id })
          v.housed house;
  }

  -- a message that comes out of a channel was the first to wait there
  pub recv_inversion :
      (q q' : Q) (inbound : WorkerInbound S E)
      → B.recv q ≡ some (inbound, q')
      → B.waiting q ≡ inbound ∷ B.waiting q'
  recv_inversion q q' inbound e = by_waiting (B.waiting q) refl
    where
      by_waiting :
          (xs : List (WorkerInbound S E)) → B.waiting q ≡ xs → B.waiting q ≡ inbound ∷ B.waiting q'
      by_waiting [] w = cc (fifo.recv_none q w)
      by_waiting (a ∷ rest) w =
          let (r, taken, left) = fifo.recv_next a rest q w in
          let same = some_injective (a, r) (inbound, q') (sym taken ∙ e) in
          w
          ∙ sym (ap (λ l. a ∷ l) left)
          ∙ ap₂ (λ x y. x ∷ B.waiting y) (ap (λ p. p.0) same) (ap (λ p. p.1) same)

  abbrev pub Safely : Option (System Q M × Option (Reply S C)) → Type (ν ⊔ ξ)
  Safely none = Unit
  Safely (some result) = IsSafe result.0

  update-IsSafe :
      (i : ℕ) (thread : Thread M) (q : Q) (inbound : WorkerInbound S E) (sys : System Q M)
      → IsUpdate L.lane F H (IsHome L B fifo hash_one n i) inbound
      → IsHoused i thread
      → AllBelong L B fifo hash_one n i q
      → IsSafe sys
      → IsSafe
          (settle_result L F H B hash_one delta i thread q
            (handle_inbound L.lane F H delta inbound
              (state_of L F H B hash_one delta thread sys.router))
            sys).0
  unfolding settle_result
  update-IsSafe i thread q inbound sys u house belong v =
      let (w, e, h) =
        handle_inbound-Holds L.lane F H (IsHome L B fifo hash_one n i) table delta inbound
          (state_of L F H B hash_one delta thread sys.router) u house in
      rw e (settle-IsSafe i thread q w sys h belong v)

  handled-IsSafe :
      (i : ℕ) (thread : Thread M) (q : Q) (inbound : WorkerInbound S E) (sys : System Q M)
      → Belongs L B fifo hash_one n i inbound
      → IsHoused i thread
      → AllBelong L B fifo hash_one n i q
      → IsSafe sys
      → IsSafe
          (settle_result L F H B hash_one delta i thread q
            (handle_inbound L.lane F H delta inbound
              (state_of L F H B hash_one delta thread sys.router))
            sys).0
  unfolding settle_result handle_inbound
  handled-IsSafe i thread q (event k e s) sys b house belong v =
      update-IsSafe i thread q (event k e s) sys b house belong v
  handled-IsSafe i thread q (snapshot s) sys b house belong v =
      update-IsSafe i thread q (snapshot s) sys b house belong v
  handled-IsSafe i thread q (advance_time t) sys b house belong v =
      update-IsSafe i thread q (advance_time t) sys tt house belong v
  handled-IsSafe i thread q (snapshot_at_time k t) sys b house belong v =
      elim (Option-cases (answer L.lane F H t (H.get k thread.history_by_id))) [
        | inl panic ↦ rw panic (finish-IsSafe i thread q sys house v)
        | inr (a, e) ↦ rw e (
            settle-IsSafe i thread q (state_of L F H B hash_one delta thread sys.router) sys house
              belong v)
      ]
  handled-IsSafe i thread q shutdown sys b house belong v = finish-IsSafe i thread q sys house v

  receive-IsSafe :
      (i : ℕ) (thread : Thread M) (q : Q) (sys : System Q M)
      → IsHoused i thread
      → AllBelong L B fifo hash_one n i q
      → IsSafe sys
      → Safely (receive L F H B hash_one delta i thread (B.recv q) sys)
  unfolding receive
  receive-IsSafe i thread q sys house belong v = elim (Option-cases (B.recv q)) [
    | inl waits ↦ rw waits tt
    | inr ((inbound, q'), e) ↦
        let rest =
          subst (All (Belongs L B fifo hash_one n i)) (recv_inversion q q' inbound e) belong in
        rw e (handled-IsSafe i thread q' inbound sys rest.0 house rest.1 v)
  ]

  round-IsSafe :
      (i : ℕ) (thread : Thread M) (q : Q) (sys : System Q M)
      → IsHoused i thread
      → AllBelong L B fifo hash_one n i q
      → IsSafe sys
      → Safely (round L F H B hash_one delta i thread q sys)
  unfolding round
  round-IsSafe i thread q sys house belong v = elim (Bool-cases thread.is_alive) [
    | inl alive ↦ elim (Bool-cases thread.is_running) [
      | inl running ↦ rw (round, alive) (rw running (receive-IsSafe i thread q sys house belong v))
      | inr stopping ↦ rw (round, alive) (rw stopping (finish-IsSafe i thread q sys house v))
    ]
    | inr over ↦ rw (round, over) tt
  ]

  pub turn-IsSafe :
      (i : ℕ) (sys : System Q M) → IsSafe sys → Safely (turn L F H B hash_one delta i sys)
  unfolding turn
  turn-IsSafe i sys v = elim (Option-cases (get_elem? sys.threads i)) [
    | inl none_there ↦ rw (turn, none_there) tt
    | inr (thread, e) ↦ elim (Option-cases (get_elem? sys.router.workers i)) [
      | inl none_there ↦ rw (turn, e) (rw none_there tt)
      | inr (q, f) ↦
          rw (turn, e)
            (rw f (round-IsSafe i thread q sys (v.housed i thread e) (v.routed.messages i q f) v))
    ]
  ]
