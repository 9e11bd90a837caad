-- ===== src/System/Safety.antt =====
-- What holds in every reachable system.
use contime.Prelude.{
  ℕ, ◌%◌, ◌≡◌, refl, ◌∙◌, false, Option, none, some, Option-cases, inl, inr, get_elem?,
  length-replicate, length-set, AllAt-set, AllAt-replicate, subst,
}
use contime.Prelude.Int.{ℤ}
use contime.Traits.{EventLanes}
use contime.Channel.{Channel}
use contime.Table.{Table, IsTable}
use contime.History.{History}
use contime.History.Safe.{IsSound}
use contime.Worker.{WorkerInbound, shutdown}
use contime.Worker.Sound.{IsOwn}
use contime.System.{
  Mailbox, IsFifo, Thread, System, new, new_thread, sent_or_same, drop_worker, Step, calls, sends,
  turns, drops, Reach, start, later,
}
use contime.System.Calls.{IsHome, AllBelong, call-IsRouted, Sends-IsRouted, set-AllBelong}
use contime.System.Invariant.{IsHoused, IsSafe, Safely, turn-IsSafe}

module _ {ℓ κ μ ν ξ} {S : Type ℓ} {E : Type κ} {C : Type μ} {M : Type ν} {Q : Type ξ}
    (L : EventLanes S E) (F : Channel C) (H : Table M (History S E C)) (table : IsTable H)
    (B : Mailbox Q (WorkerInbound S E)) (fifo : IsFifo B) (hash_one : ℕ → ℕ) (delta : ℤ)
    (n : ℕ) where
  pub new-IsSafe :
      (budget : ℕ)
      → IsSafe L F H table B fifo hash_one delta n (new L F H B hash_one delta n budget)
  unfolding new
  new-IsSafe budget = record {
    routed = record {
      count = length-replicate n (B.bounded 1000);
      messages =
          AllAt-replicate (AllBelong L B fifo hash_one n) n (B.bounded 1000)
            (λ i. rw (fifo.waiting-bounded 1000) tt);
    };
    count = length-replicate n (new_thread L F H B hash_one delta);
    housed =
        AllAt-replicate (IsHoused L F H table B fifo hash_one delta n) n
          (new_thread L F H B hash_one delta) (λ i k. rw (table.get-new k) tt);
  }

  sent_or_same-AllBelong :
      (i : ℕ) (q : Q) (o : Option Q)
      → B.inbox.send shutdown q ≡ o
      → AllBelong L B fifo hash_one n i q
      → AllBelong L B fifo hash_one n i (sent_or_same L F H B hash_one delta q o)
  sent_or_same-AllBelong i q none e b = b
  sent_or_same-AllBelong i q (some q') e b =
      set-AllBelong L B fifo hash_one n i shutdown q q' tt b e

  drop_worker-IsSafe :
      (i : ℕ) (sys : System Q M)
      → IsSafe L F H table B fifo hash_one delta n sys
      → IsSafe L F H table B fifo hash_one delta n (drop_worker L F H B hash_one delta i sys)
  unfolding drop_worker
  drop_worker-IsSafe i sys v = elim (Option-cases (get_elem? sys.threads i)) [
    | inl none_there ↦ rw (drop_worker, none_there) v
    | inr (thread, e) ↦ elim (Option-cases (get_elem? sys.router.workers i)) [
      | inl none_there ↦ rw (drop_worker, e) (rw none_there v)
      | inr (q, f) ↦
          rw (drop_worker, e)
            (rw f (record {
              routed = record {
                count =
                    length-set sys.router.workers i
                      (sent_or_same L F H B hash_one delta q (B.inbox.send shutdown q))
                    ∙ v.routed.count;
                messages =
                    AllAt-set (AllBelong L B fifo hash_one n) sys.router.workers i
                      (sent_or_same L F H B hash_one delta q (B.inbox.send shutdown q))
                      v.routed.messages
                      (sent_or_same-AllBelong i q (B.inbox.send shutdown q) refl
                        (v.routed.messages i q f));
              };
              count = length-set sys.threads i (record thread { is_running = false }) ∙ v.count;
              housed =
                  AllAt-set (IsHoused L F H table B fifo hash_one delta n) sys.threads i
                    (record thread { is_running = false }) v.housed (v.housed i thread e);
            }))
    ]
  ]

  Step-IsSafe :
      {sys sys' : System Q M}
      → Step L F H B hash_one delta sys sys'
      → IsSafe L F H table B fifo hash_one delta n sys
      → IsSafe L F H table B fifo hash_one delta n sys'
  Step-IsSafe (calls c sys r e) v = record {
    routed = call-IsRouted L B fifo hash_one n c sys.router r v.routed e;
    count = v.count;
    housed = v.housed;
  }
  Step-IsSafe (sends sys r s) v = record {
    routed = Sends-IsRouted L B fifo hash_one n s v.routed;
    count = v.count;
    housed = v.housed;
  }
  Step-IsSafe (turns i sys sys' reply e) v =
      subst (Safely L F H table B fifo hash_one delta n) e
        (turn-IsSafe L F H table B fifo hash_one delta n i sys v)
  Step-IsSafe (drops i sys) v = drop_worker-IsSafe i sys v

  pub Reach-IsSafe :
      {budget : ℕ} {sys : System Q M}
      → Reach L F H B hash_one delta n budget sys
      → IsSafe L F H table B fifo hash_one delta n sys
  Reach-IsSafe {budget} start = new-IsSafe budget
  Reach-IsSafe (later r s) = Step-IsSafe s (Reach-IsSafe r)

  -- In every reachable system a thread has a history of an id only if it is the home of the id,
  -- which the hash gives: no two threads have histories of one id. The history carries the id, and
  -- its maps are sorted.
  pub one_home :
      {budget : ℕ} {sys : System Q M}
      → Reach L F H B hash_one delta n budget sys
      → (i k : ℕ) (thread : Thread M) (h : History S E C) → get_elem? sys.threads i ≡ some thread
      → H.get k thread.history_by_id ≡ some h
      → (hash_one k % n ≡ i) × (h.snapshot_id ≡ k) × IsSound L.lane F h
  one_home r i k thread h e g =
      let own =
        subst (IsOwn L.lane F H (IsHome L B fifo hash_one n i) k) g
          ((Reach-IsSafe r).housed i thread e k) in
      (own.2, own.1, own.0)
