-- ===== src/Examples/Boxes.antt =====
-- The systems of the examples: three workers, a list as each channel, and the fixtures' lanes.
use contime.Prelude.{
  ℕ, sym, ◌∙◌, subst, some_injective, ◌≡◌, refl, Bool, true, false, Option, none, some, List, [],
  ◌∷◌, ◌++◌, if◌then◌else◌,
}
use contime.Prelude.Int.{pos}
use contime.History.{History}
use contime.Worker.{WorkerInbound, event, advance_time, Reply}
use contime.Key.{key_ord}
use contime.System.{Mailbox, IsFifo, Thread, System, turn, Reach}
use contime.Lanes.{SnapshotLane, snapshot_lane, EventLane, event_lane}
use contime.Fixtures.{TestEvent, TestSnapshot, test_lanes, from_event}
use contime.Examples.Data.{ListChannel, list_channel, blank, first, entry_list}

abbrev pub Inbound : Type 0
Inbound = WorkerInbound (SnapshotLane TestSnapshot) (EventLane TestEvent)

-- a list, and whether its receiver is there
pub record Box : Type 0 where
  pub messages : List Inbound
  pub is_open : Bool

abbrev pub first_of : List Inbound → Bool → Option (Inbound × Box)
first_of [] o = none
first_of (a ∷ more) o = some (a, record { messages = more; is_open = o })

abbrev pub box : Mailbox Box Inbound
box = record {
  bounded = λ n. record { messages = []; is_open = true };
  inbox = record {
    send = λ a q. if q.is_open then some (record q { messages = q.messages ++ a ∷ [] }) else none;
  };
  recv = λ q. first_of q.messages q.is_open;
  close = λ q. record { messages = []; is_open = false };
  waiting = λ q. q.messages;
}

none_is_not : (b : Box) → Option.none ≡ some b → ⊥
none_is_not b e = cc

pub box-IsFifo : IsFifo box
box-IsFifo = record {
  waiting-bounded = λ n. refl;
  waiting-send = λ a q q' e. sent a q q' q.is_open refl e;
  recv_next =
      λ a more q e. (record { messages = more; is_open = q.is_open }, by_list a more q e, refl);
  recv_none = λ q e. empty q q.messages refl e;
  waiting-close = λ q. refl;
  send-close = λ a q. refl;
}
  where
    sent :
        (a : Inbound) (q q' : Box) (o : Bool)
        → q.is_open ≡ o
        → (if q.is_open then some (record q { messages = q.messages ++ a ∷ [] }) else none)
          ≡ some q'
        → q'.messages ≡ q.messages ++ a ∷ []
    sent a q q' true e f =
        subst (λ b. b.messages ≡ q.messages ++ a ∷ [])
          (some_injective (record q { messages = q.messages ++ a ∷ [] }) q' (sym (rw e refl) ∙ f))
          refl
    sent a q q' false e f = absurd (none_is_not q' (sym (rw e refl) ∙ f))

    by_list :
        (a : Inbound) (more : List Inbound) (q : Box)
        → q.messages ≡ a ∷ more
        → first_of q.messages q.is_open ≡ some (a, record { messages = more; is_open = q.is_open })
    by_list a more q e = rw e refl

    empty :
        (q : Box) (m : List Inbound)
        → q.messages ≡ m
        → m ≡ []
        → first_of q.messages q.is_open ≡ none
    empty q m f e = rw (f, e) refl

abbrev pub Histories : Type 0
Histories = List (ℕ × History (SnapshotLane TestSnapshot) (EventLane TestEvent) ListChannel)

abbrev pub same_hash : ℕ → ℕ
same_hash id = id

abbrev pub Sys : Type 0
Sys = System Box Histories

abbrev pub turn_at : ℕ → Sys → Option (Sys × Option (Reply (SnapshotLane TestSnapshot) ListChannel))
turn_at i sys = turn test_lanes list_channel entry_list box same_hash (pos 1000) i sys

abbrev pub IsReached : Sys → Type 0
IsReached sys = Reach test_lanes list_channel entry_list box same_hash (pos 1000) 3 1000 sys

abbrev pub holding : List Inbound → Box
holding messages = record { messages = messages; is_open = true }

abbrev pub fresh_thread : Thread Histories
fresh_thread = record { history_by_id = []; is_running = true; is_alive = true }

-- with the number of messages that calls have sent so far
abbrev pub with_messages : ℕ → List Inbound → List Inbound → List Inbound → Sys
with_messages n a b c = record {
  router = record {
    workers = holding a ∷ holding b ∷ holding c ∷ [];
    memory_budget = 1000;
    memory_usage = 0;
    channels = n;
  };
  threads = fresh_thread ∷ fresh_thread ∷ fresh_thread ∷ [];
}

abbrev pub fresh : Sys
fresh = with_messages 0 [] [] []

abbrev pub first_event : Inbound
first_event = event 1 (event_lane first) (snapshot_lane (from_event first))

abbrev pub the_advance : Inbound
the_advance = advance_time (pos 20)

-- worker 1 has the event; then all have the advance too
abbrev pub busy : Sys
busy = with_messages 1 [] (first_event ∷ []) []

abbrev pub advancing : Sys
advancing = with_messages 4 (the_advance ∷ []) (first_event ∷ the_advance ∷ []) (the_advance ∷ [])

-- the history of the id at its home, after the turn
abbrev pub with_first : History (SnapshotLane TestSnapshot) (EventLane TestEvent) ListChannel
with_first = record {
  snapshot_id = 1;
  base_snapshot = snapshot_lane blank;
  checkpoints = [];
  events = (record { time = pos 10; id = 10 }, event_lane first) ∷ [];
  checkpoint_interval = 100;
  current_time = pos 0;
  lower_time_horizon_delta = pos 1000;
  reconciliation = record { messages = []; limit = 1000 };
}

abbrev pub home : Thread Histories
home = record { history_by_id = (1, with_first) ∷ []; is_running = true; is_alive = true }

abbrev pub at_home : ℕ → List Inbound → List Inbound → List Inbound → Sys
at_home n a b c = record {
  router = record {
    workers = holding a ∷ holding b ∷ holding c ∷ [];
    memory_budget = 1000;
    memory_usage = 70;
    channels = n;
  };
  threads = fresh_thread ∷ home ∷ fresh_thread ∷ [];
}

abbrev pub done : Sys
done = at_home 1 [] [] []
