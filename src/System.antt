-- ===== src/System.antt =====
-- The router of src/router.rs with the threads of src/worker.rs. A step is a call of the router, a
-- single send of a call that is under way, a turn of one thread's loop, or the drop of a worker;
-- steps come in any order. What the channels (`flume`) between router and threads do is the
-- parameter `Mailbox`, with the laws `IsFifo`.
pub mod Calls
pub mod Invariant
pub mod Safety
pub mod Progress
pub mod Drain
pub mod Commute
pub mod Holding
pub mod Service
use contime.Prelude.{
  ℕ, zero, suc, ◌≡◌, Bool, true, false, Option, none, some, List, [], ◌∷◌, ◌++◌, get_elem?, set,
  replicate, if◌then◌else◌,
}
use contime.Prelude.Int.{ℤ}
use contime.Traits.{Snapshot, EventLanes}
use contime.Channel.{Channel}
use contime.Table.{Table}
use contime.History.{History}
use contime.Worker.{
  WorkerState, WorkerInbound, event, snapshot, snapshot_at_time, advance_time, shutdown, Reply,
  completed, answered, stopped, handle_inbound,
}
use contime.Router.{
  Router, RouterError, Receiver, Inbox, Outcome, send_event, send_snapshot, query_at, send_advance,
  route, send_to,
}

-- a bounded channel with one receiver
pub record Mailbox {ℓ ν} (Q : Type ν) (A : Type ℓ) : Type (ℓ ⊔ ν) where
  pub bounded : ℕ → Q
  pub inbox : Inbox Q A
  -- the next message, where one waits
  pub recv : Q → Option (A × Q)
  -- the receiver is dropped
  pub close : Q → Q
  -- the messages that wait, the oldest first
  pub waiting : Q → List A

-- Messages come out in the order in which they went in, and none is lost unless the receiver is
-- dropped. (A `send` that waits for room has not happened yet.)
pub record IsFifo {ℓ ν} {Q : Type ν} {A : Type ℓ} (B : Mailbox Q A) : Type (ℓ ⊔ ν) where
  pub waiting-bounded : (n : ℕ) → B.waiting (B.bounded n) ≡ []
  pub waiting-send :
      (a : A) (q q' : Q) → B.inbox.send a q ≡ some q' → B.waiting q' ≡ B.waiting q ++ a ∷ []
  pub recv_next :
      (a : A) (rest : List A) (q : Q)
      → B.waiting q ≡ a ∷ rest
      → (q' : Q) × (B.recv q ≡ some (a, q')) × (B.waiting q' ≡ rest)
  pub recv_none : (q : Q) → B.waiting q ≡ [] → B.recv q ≡ none
  pub waiting-close : (q : Q) → B.waiting (B.close q) ≡ []
  pub send-close : (a : A) (q : Q) → B.inbox.send a (B.close q) ≡ none

-- a thread of `handle_worker`: its histories, the flag `is_running`, and whether its loop goes on
pub record Thread {ν} (M : Type ν) : Type ν where
  pub history_by_id : M
  pub is_running : Bool
  pub is_alive : Bool

pub record System {ν κ} (Q : Type ν) (M : Type κ) : Type (ν ⊔ κ) where
  pub router : Router Q
  pub threads : List (Thread M)

-- a call of the router
pub data Call {ℓ κ} (S : Type ℓ) (E : Type κ) : Type (ℓ ⊔ κ) where
  event_call : E → Call S E
  snapshot_call : S → Call S E
  query_call : ℤ → ℕ → Call S E
  advance_call : ℤ → Call S E

-- the router that a call leaves, also where it returns early with an error
abbrev pub left {ℓ κ} : {R : Type ℓ} {A : Type κ} → Outcome RouterError R A → Option R
left (Outcome.ok a r) = some r
left (Outcome.err e r) = some r
left Outcome.panics = none

module _ {ℓ κ ξ} {S : Type ℓ} {E : Type κ} {Q : Type ξ} (L : EventLanes S E)
    (B : Mailbox Q (WorkerInbound S E)) (hash_one : ℕ → ℕ) where
  unfoldable pub call : Call S E → Router Q → Option (Router Q)
  call (event_call e) r = left (send_event L B.inbox hash_one e r)
  call (snapshot_call s) r = left (send_snapshot L B.inbox hash_one s r)
  call (query_call time snapshot_id) r = left (query_at L B.inbox hash_one time snapshot_id r)
  call (advance_call time) r = left (send_advance L B.inbox hash_one time r)

  -- one message of a call that is under way, after its guard: an event to the worker of one of its
  -- snapshots, a snapshot or a query to the worker of its id, or an advance to any worker
  pub data Sends : Router Q → Router Q → Type (ℓ ⊔ κ ⊔ ξ) where
    event_to :
        {r r' : Router Q} (e : E) (pre : List S) (s : S) (post : List S) (rx : Receiver S E)
        → L.snapshots e ≡ pre ++ s ∷ post
        → route L B.inbox hash_one (L.lane.id s) (event (L.lane.id s) e s) r ≡ Outcome.ok rx r'
        → Sends r r'
    snapshot_to :
        {r r' : Router Q} (s : S) (rx : Receiver S E)
        → route L B.inbox hash_one (L.lane.id s) (snapshot s) r ≡ Outcome.ok rx r'
        → Sends r r'
    query_to :
        {r r' : Router Q} (time : ℤ) (snapshot_id : ℕ) (rx : Receiver S E)
        → route L B.inbox hash_one snapshot_id (snapshot_at_time snapshot_id time) r
          ≡ Outcome.ok rx r'
        → Sends r r'
    advance_to :
        {r r' : Router Q} (time : ℤ) (i : ℕ) (rx : Receiver S E)
        → send_to L B.inbox hash_one i (advance_time time) r ≡ Outcome.ok rx r'
        → Sends r r'

module _ {ℓ κ μ ν ξ} {S : Type ℓ} {E : Type κ} {C : Type μ} {M : Type ν} {Q : Type ξ}
    (L : EventLanes S E) (F : Channel C) (H : Table M (History S E C))
    (B : Mailbox Q (WorkerInbound S E)) (hash_one : ℕ → ℕ) (lower_time_horizon_delta : ℤ) where
  -- `Worker::with_history_horizon`: the thread starts with no histories
  abbrev pub new_thread : Thread M
  new_thread = record { history_by_id = H.new; is_running = true; is_alive = true }

  -- `Router::with_history_horizon`, with the threads that it starts; `Router::new` has the horizon 0
  unfoldable pub new : ℕ → ℕ → System Q M
  new worker_count memory_budget_bytes = record {
    router = record {
      workers = replicate worker_count (B.bounded 1000);
      memory_budget = memory_budget_bytes;
      memory_usage = 0;
      channels = 0;
    };
    threads = replicate worker_count new_thread;
  }

  -- the loop of a thread is over, and its receiver is dropped
  unfoldable pub finish : ℕ → Thread M → Q → System Q M → System Q M
  finish i thread q sys = record sys {
    router = record sys.router { workers = set sys.router.workers i (B.close q) };
    threads = set sys.threads i (record thread { is_alive = false });
  }

  -- a thread has handled a message
  unfoldable pub settle : ℕ → Thread M → Q → WorkerState M → System Q M → System Q M
  settle i thread q w sys = record sys {
    router = record sys.router {
      workers = set sys.router.workers i q;
      memory_usage = w.memory_usage;
    };
    threads = set sys.threads i (record thread { history_by_id = w.history_by_id });
  }

  -- what a turn leaves: a panic and a `Shutdown` end the loop
  unfoldable pub settle_result :
      ℕ
      → Thread M
      → Q
      → Option (WorkerState M × Reply S C)
      → System Q M
      → System Q M × Option (Reply S C)
  settle_result i thread q none sys = (finish i thread q sys, none)
  settle_result i thread q (some (w, stopped)) sys = (finish i thread q sys, none)
  settle_result i thread q (some (w, reply)) sys = (settle i thread q w sys, some reply)

  abbrev pub state_of : Thread M → Router Q → WorkerState M
  state_of thread r = record { history_by_id = thread.history_by_id; memory_usage = r.memory_usage }

  -- `worker_inbound_rx.recv()` and the arms of the match; without a message the thread waits
  unfoldable pub receive :
      ℕ
      → Thread M
      → Option (WorkerInbound S E × Q)
      → System Q M
      → Option (System Q M × Option (Reply S C))
  receive i thread none sys = none
  receive i thread (some (inbound, q)) sys = some (
      settle_result i thread q
        (handle_inbound L.lane F H lower_time_horizon_delta inbound (state_of thread sys.router))
        sys)

  -- a round of the loop of `handle_worker` on the thread at an index, with its channel
  unfoldable pub round : ℕ → Thread M → Q → System Q M → Option (System Q M × Option (Reply S C))
  round i thread q sys = elim thread.is_alive [
    | false ↦ none
    | true ↦ elim thread.is_running [
      | false ↦ some (finish i thread q sys, none)
      | true ↦ receive i thread (B.recv q) sys
    ]
  ]

  -- a turn of the thread at an index; `none` where it waits or is over
  unfoldable pub turn : ℕ → System Q M → Option (System Q M × Option (Reply S C))
  turn i sys = elim (get_elem? sys.threads i) [
    | none ↦ none
    | some thread ↦ elim (get_elem? sys.router.workers i) [
      | none ↦ none
      | some q ↦ round i thread q sys
    ]
  ]

  -- the flag and the message of `Worker::drop`; an error of `send` is ignored
  abbrev pub sent_or_same : Q → Option Q → Q
  sent_or_same q none = q
  sent_or_same q (some q') = q'

  abbrev pub stop_at : ℕ → Thread M → Q → System Q M → System Q M
  stop_at i thread q sys = record sys {
    router = record sys.router {
      workers = set sys.router.workers i (sent_or_same q (B.inbox.send shutdown q));
    };
    threads = set sys.threads i (record thread { is_running = false });
  }

  unfoldable pub drop_worker : ℕ → System Q M → System Q M
  drop_worker i sys = elim (get_elem? sys.threads i) [
    | none ↦ sys
    | some thread ↦ elim (get_elem? sys.router.workers i) [
      | none ↦ sys
      | some q ↦ stop_at i thread q sys
    ]
  ]

  pub data Step : System Q M → System Q M → Type (ℓ ⊔ κ ⊔ μ ⊔ ν ⊔ ξ) where
    calls :
        (c : Call S E) (sys : System Q M) (r : Router Q)
        → call L B hash_one c sys.router ≡ some r
        → Step sys (record sys { router = r })
    sends :
        (sys : System Q M) (r : Router Q)
        → Sends L B hash_one sys.router r
        → Step sys (record sys { router = r })
    turns :
        (i : ℕ) (sys sys' : System Q M) (reply : Option (Reply S C))
        → turn i sys ≡ some (sys', reply)
        → Step sys sys'
    drops : (i : ℕ) (sys : System Q M) → Step sys (drop_worker i sys)

  -- what a start with some workers and some budget may come to
  pub data Reach (worker_count memory_budget_bytes : ℕ)
      : System Q M → Type (ℓ ⊔ κ ⊔ μ ⊔ ν ⊔ ξ) where
    start : Reach worker_count memory_budget_bytes (new worker_count memory_budget_bytes)
    later :
        {s t : System Q M}
        → Reach worker_count memory_budget_bytes s
        → Step s t
        → Reach worker_count memory_budget_bytes t
