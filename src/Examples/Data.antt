-- ===== src/Examples/Data.antt =====
-- The inputs of the examples: the fixtures, a list as the channel, and a few histories.
use contime.Prelude.{
  Option, none, some, map, ◌==◌, ℕ, ◌≡◌, refl, List, [], ◌∷◌, ◌++◌, length, ltb, if◌then◌else◌,
  arith,
}
use contime.Prelude.Int.{ℤ, pos}
use contime.Traits.{SetsTime, IgnoresTime}
use contime.Channel.{Reconciliation, Channel, IsBounded}
use contime.History.{History}
use contime.Table.{Table, IsTable}
use contime.Key.{from_event, key_ord, compare_key}
use contime.BTreeMap.{contains_key, get}
use contime.Apply.{step, replay}
use contime.History.Valid.{IsValid}
use contime.Fixtures.{TestEvent, positive, negative, TestSnapshot, test_snapshot}

pub record ListChannel : Type 0 where
  pub messages : List Reconciliation
  pub limit : ℕ

abbrev pub list_channel : Channel ListChannel
list_channel = record {
  bounded = λ n. record { messages = []; limit = n };
  try_send = λ r c.
      if ltb (length c.messages) c.limit then record c { messages = c.messages ++ r ∷ [] } else c;
  queued = λ c. c.messages;
  capacity = λ c. c.limit;
}

pub list_channel-IsBounded : IsBounded list_channel
list_channel-IsBounded = record {
  queued-bounded = λ n. refl;
  capacity-bounded = λ n. refl;
  capacity-try_send = λ r c. ground arith;
  queued_room = λ r c h. ground arith;
  queued_full = λ r c h. ground arith;
}

pub test-SetsTime : SetsTime test_snapshot
test-SetsTime = record {
  time-set_time = λ t s. refl;
  id-set_time = λ t s. refl;
  set_time-set_time = λ t u s. refl;
}

ignores :
    (e : TestEvent) (t : ℤ) (s : TestSnapshot)
    → test_snapshot.apply.apply_to e (test_snapshot.set_time t s)
      ≡ test_snapshot.set_time t (test_snapshot.apply.apply_to e s)
ignores (positive a b c d) t s = refl
ignores (negative a b c d) t s = refl

pub test-IgnoresTime : IgnoresTime test_snapshot
test-IgnoresTime = record { apply_to-set_time = ignores }

abbrev pub TestHistory : Type 0
TestHistory = History TestSnapshot TestEvent ListChannel

abbrev pub blank : TestSnapshot
blank = record { id = 1; time = pos 0; items = []; sum = pos 0 }

-- what `new` makes of it at time 0, with 1000 as the distance of the horizon
abbrev pub start : TestHistory
start = record {
  snapshot_id = 1;
  base_snapshot = blank;
  checkpoints = [];
  events = [];
  checkpoint_interval = 100;
  current_time = pos 0;
  lower_time_horizon_delta = pos 1000;
  reconciliation = record { messages = []; limit = 1000 };
}

abbrev pub first : TestEvent
first = positive 1 (pos 10) 10 30

abbrev pub late : TestEvent
late = negative 1 (pos 5) 5 20

pub start-IsValid : IsValid test_snapshot list_channel start
start-IsValid = record {
  maps = record { events_sorted = tt; checkpoints_sorted = tt; exact = tt; keyed = tt };
  interval = omega arith;
}

-- both events, and no checkpoint
abbrev pub plain : TestHistory
plain = record start {
  events =
      (from_event test_snapshot.event late, late)
      ∷ (from_event test_snapshot.event first, first)
      ∷ [];
}

-- both events, and a checkpoint at the earlier
abbrev pub cached : TestHistory
cached = record plain {
  checkpoints = (from_event test_snapshot.event late, step test_snapshot blank late) ∷ [];
  checkpoint_interval = 2;
}

pub plain-IsValid : IsValid test_snapshot list_channel plain
unfolding key_ord compare_key
plain-IsValid = record {
  maps = record {
    events_sorted = ((refl, tt), (tt, tt));
    checkpoints_sorted = tt;
    exact = tt;
    keyed = (refl, (refl, tt));
  };
  interval = omega arith;
}

pub cached-IsValid : IsValid test_snapshot list_channel cached
unfolding replay step key_ord compare_key contains_key get
cached-IsValid = record {
  maps = record {
    events_sorted = ((refl, tt), (tt, tt));
    checkpoints_sorted = (tt, tt);
    exact = ((refl, refl), tt);
    keyed = (refl, (refl, tt));
  };
  interval = omega arith;
}

-- an association list as the hash map
abbrev get_entry {ℓ} : {V : Type ℓ} → ℕ → List (ℕ × V) → Option V
get_entry j [] = none
get_entry j ((k, v) ∷ m) = if k == j then some v else get_entry j m

abbrev put_entry {ℓ} : {V : Type ℓ} → ℕ → V → List (ℕ × V) → List (ℕ × V)
put_entry k v [] = (k, v) ∷ []
put_entry k v ((i, u) ∷ m) = if i == k then (k, v) ∷ m else (i, u) ∷ put_entry k v m

abbrev pub entry_list {ℓ} : {V : Type ℓ} → Table (List (ℕ × V)) V
entry_list = record { new = []; get = get_entry; insert = put_entry; keys = map (λ e. e.0) }

get_entry-put_entry {ℓ} :
    {V : Type ℓ} (j k : ℕ) (v : V) (m : List (ℕ × V))
    → get_entry j (put_entry k v m) ≡ (if k == j then some v else get_entry j m)
get_entry-put_entry j k v [] = refl
get_entry-put_entry j k v ((i, u) ∷ m) = ground (arith, get_entry-put_entry j k v m)

pub entry_list-IsTable {ℓ} : {V : Type ℓ} → IsTable (entry_list {V = V})
entry_list-IsTable = record { get-new = λ k. refl; get-insert = get_entry-put_entry }
