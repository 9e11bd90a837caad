-- ===== src/System/Service.antt =====
-- The router with its threads as one abstract store: whatever the order of turns, the replies are
-- those of the store with the events that have been handled by then.
use contime.Prelude.{
  ℕ, ◌≡◌, refl, sym, ap, ◌∙◌, subst, Option, some, some_injective, List, ◌∷◌, All, get_elem?,
  get_elem?-lt, lt-get_elem?, AllAt, AllAt-set, AllAt-replicate, arith,
}
use contime.Prelude.Int.{ℤ}
use contime.Traits.{EventLanes, SetsTime, IgnoresTime}
use contime.Channel.{Channel}
use contime.Table.{Table, IsTable}
use contime.History.{History}
use contime.Worker.{WorkerState, WorkerInbound, Reply, handle_inbound}
use contime.Worker.Store.{Store, no_entries}
use contime.Worker.Answers.{after, IsRequest, IsReply, handle_inbound-Represents}
use contime.Router.{Router}
use contime.System.{
  Mailbox, IsFifo, Thread, System, Call, call, Sends, new, new_thread, settle, settle_result,
  state_of, receive, turn,
}
use contime.System.Calls.{IsHome, Belongs, call-IsRouted, Sends-IsRouted}
use contime.System.Holding.{HoldsAt, Belongs-IsAbout, settled_with, settle-AllAt}
use contime.System.Invariant.{IsSafe, Safely, turn-IsSafe}
use contime.System.Safety.{new-IsSafe}
use contime.System.Drain.{IsUp, turn-round, round-receive}

module _ {ℓ κ μ ν ξ} {S : Type ℓ} {E : Type κ} {C : Type μ} {M : Type ν} {Q : Type ξ}
    (L : EventLanes S E) (F : Channel C) (H : Table M (History S E C)) (table : IsTable H)
    (B : Mailbox Q (WorkerInbound S E)) (fifo : IsFifo B) (hash_one : ℕ → ℕ) (delta : ℤ) (n : ℕ)
    (sets : SetsTime L.lane) (ignores : IgnoresTime L.lane) where
  -- What a start may come to by calls of the router, whole or send by send, and by turns that handle
  -- requests. The store has what has been handled.
  pub data Served (budget : ℕ) : Store L.lane → System Q M → Type (ℓ ⊔ κ ⊔ μ ⊔ ν ⊔ ξ) where
    opened : Served budget (no_entries L.lane) (new L F H B hash_one delta n budget)
    asked :
        {σ : Store L.lane} {sys : System Q M}
        → Served budget σ sys
        → (c : Call S E) (r : Router Q) → call L B hash_one c sys.router ≡ some r
        → Served budget σ (record sys { router = r })
    sent :
        {σ : Store L.lane} {sys : System Q M}
        → Served budget σ sys
        → (r : Router Q) → Sends L B hash_one sys.router r
        → Served budget σ (record sys { router = r })
    handled :
        {σ : Store L.lane} {sys : System Q M}
        → Served budget σ sys
        → (i : ℕ) (q : Q) (inbound : WorkerInbound S E) (rest : List (WorkerInbound S E))
          (sys' : System Q M) (reply : Option (Reply S C))
        → get_elem? sys.router.workers i ≡ some q
        → B.waiting q ≡ inbound ∷ rest
        → IsRequest L.lane C inbound σ
        → turn L F H B hash_one delta i sys ≡ some (sys', reply)
        → Served budget (after L.lane C inbound σ) sys'

  record IsServed (σ : Store L.lane) (sys : System Q M) : Type (ℓ ⊔ κ ⊔ μ ⊔ ν ⊔ ξ) where
    safe : IsSafe L F H table B fifo hash_one delta n sys
    up : AllAt (λ i. IsUp L F H table B fifo hash_one delta n) sys.threads
    holds : AllAt (HoldsAt L F H table B fifo hash_one delta n σ) sys.threads

  receive-handled :
      (i : ℕ) (thread : Thread M) (q' : Q) (inbound : WorkerInbound S E) (w : WorkerState M)
      (σ : Store L.lane) (r : Reply S C) (sys : System Q M)
      → IsRequest L.lane C inbound σ
      → IsReply L.lane C inbound σ r
      → handle_inbound L.lane F H delta inbound (state_of L F H B hash_one delta thread sys.router)
        ≡ some (w, r)
      → receive L F H B hash_one delta i thread (some (inbound, q')) sys
        ≡ some (settle L F H B hash_one delta i thread q' w sys, some r)
  unfolding receive
  receive-handled i thread q' inbound w σ r sys a b e =
      ap (λ o. some (settle_result L F H B hash_one delta i thread q' o sys)) e
      ∙ ap some (settled_with L F H table B fifo hash_one delta n inbound σ i thread q' w r sys a b)

  settle-IsUp :
      (i : ℕ) (thread : Thread M) (q : Q) (w : WorkerState M) (sys : System Q M)
      → IsUp L F H table B fifo hash_one delta n thread
      → AllAt (λ j. IsUp L F H table B fifo hash_one delta n) sys.threads
      → AllAt
          (λ j. IsUp L F H table B fifo hash_one delta n)
          (settle L F H B hash_one delta i thread q w sys).threads
  unfolding settle
  settle-IsUp i thread q w sys u v =
      AllAt-set (λ j. IsUp L F H table B fifo hash_one delta n) sys.threads i
        (record thread { history_by_id = w.history_by_id }) v u

  serve :
      (i : ℕ) (q : Q) (inbound : WorkerInbound S E) (rest : List (WorkerInbound S E))
      (σ : Store L.lane) (sys : System Q M)
      → IsServed σ sys
      → get_elem? sys.router.workers i ≡ some q
      → B.waiting q ≡ inbound ∷ rest
      → IsRequest L.lane C inbound σ
      → (sys' : System Q M) × (r : Reply S C) × (turn L F H B hash_one delta i sys
          ≡ some (sys', some r))
        × IsReply L.lane C inbound σ r
        × IsServed (after L.lane C inbound σ) sys'
  serve i q inbound rest σ sys v f e a =
      let (thread, g) =
        get_elem?-lt sys.threads i (
          omega
            (arith, lt-get_elem? sys.router.workers i q f, v.safe.routed.count, v.safe.count)) in
      let (q', taken, left) = fifo.recv_next inbound rest q e in
      let belongs = subst (All (Belongs L B fifo hash_one n i)) e (v.safe.routed.messages i q f) in
      let here = Belongs-IsAbout L F H table B fifo hash_one delta n i inbound belongs.0 in
      let (w, r, done, reply, new_holds) =
        handle_inbound-Represents L.lane F H sets ignores table (IsHome L B fifo hash_one n i) delta
          inbound σ (state_of L F H B hash_one delta thread sys.router) (v.holds i thread g) a
          here in
      let turned =
        turn-round L F H table B fifo hash_one delta n i thread q sys g f
        ∙ round-receive L F H table B fifo hash_one delta n i thread q sys (v.up i thread g)
        ∙ ap (λ o. receive L F H B hash_one delta i thread o sys) taken
        ∙ receive-handled i thread q' inbound w σ r sys a reply done in
      (
        settle L F H B hash_one delta i thread q' w sys,
        r,
        turned,
        reply,
        record {
          safe =
              subst (Safely L F H table B fifo hash_one delta n) turned
                (turn-IsSafe L F H table B fifo hash_one delta n i sys v.safe);
          up = settle-IsUp i thread q' w sys (v.up i thread g) v.up;
          holds =
              settle-AllAt L F H table B fifo hash_one delta n i thread q' w inbound σ sys g here
                new_holds v.holds;
        },
      )

  new-IsServed : (budget : ℕ) → IsServed (no_entries L.lane) (new L F H B hash_one delta n budget)
  unfolding new
  new-IsServed budget = record {
    safe = new-IsSafe L F H table B fifo hash_one delta n budget;
    up =
        AllAt-replicate (λ i. IsUp L F H table B fifo hash_one delta n) n
          (new_thread L F H B hash_one delta) (λ i. (refl, refl));
    holds =
        AllAt-replicate (HoldsAt L F H table B fifo hash_one delta n (no_entries L.lane)) n
          (new_thread L F H B hash_one delta) (λ i k p. table.get-new k);
  }

  Served-IsServed :
      {budget : ℕ} {σ : Store L.lane} {sys : System Q M} → Served budget σ sys → IsServed σ sys
  Served-IsServed {budget} opened = new-IsServed budget
  Served-IsServed (asked {sys = sys} s c r e) =
      let v = Served-IsServed s in
      record {
        safe = record {
          routed = call-IsRouted L B fifo hash_one n c sys.router r v.safe.routed e;
          count = v.safe.count;
          housed = v.safe.housed;
        };
        up = v.up;
        holds = v.holds;
      }
  Served-IsServed (sent {sys = sys} s r e) =
      let v = Served-IsServed s in
      record {
        safe = record {
          routed = Sends-IsRouted L B fifo hash_one n e v.safe.routed;
          count = v.safe.count;
          housed = v.safe.housed;
        };
        up = v.up;
        holds = v.holds;
      }
  Served-IsServed (handled {σ = σ} {sys = sys} s i q inbound rest sys' reply f e a t) =
      let (sys'', r, turned, correct, v) = serve i q inbound rest σ sys (Served-IsServed s) f e a in
      subst (IsServed (after L.lane C inbound σ))
        (ap (λ x. x.0) (some_injective (sys'', some r) (sys', reply) (sym turned ∙ t))) v

  -- Where `set_time` sets only the time and the effect of an event ignores it: start the router,
  -- call it in any way, also with the sends of several calls in between each other, and let the threads take turns in any order, each with an event that comes
  -- with a snapshot of its id and, if it is the latest of the id, lies behind all authorities in
  -- force, with an authoritative snapshot, or with a query at a key that no event and no authority
  -- has by then. Then no turn panics or ends a thread: a turn for which such a message waits
  -- replies, to an event or a snapshot that it is handled, and to a query what the store has by
  -- then: nothing, or the last authority up to the query, or the first state of the id, with the
  -- events behind it and before the query applied that any thread has handled. After it the system
  -- serves the store with the message applied.
  pub Served-reply :
      {budget : ℕ} {σ : Store L.lane} {sys : System Q M}
      → Served budget σ sys
      → (i : ℕ) (q : Q) (inbound : WorkerInbound S E) (rest : List (WorkerInbound S E))
      → get_elem? sys.router.workers i ≡ some q
      → B.waiting q ≡ inbound ∷ rest
      → IsRequest L.lane C inbound σ
      → (sys' : System Q M) × (r : Reply S C) × (turn L F H B hash_one delta i sys
          ≡ some (sys', some r))
        × IsReply L.lane C inbound σ r
        × Served budget (after L.lane C inbound σ) sys'
  Served-reply {σ = σ} {sys = sys} s i q inbound rest f e a =
      let (sys', r, turned, correct, v) = serve i q inbound rest σ sys (Served-IsServed s) f e a in
      (sys', r, turned, correct, handled s i q inbound rest sys' (some r) f e a turned)
