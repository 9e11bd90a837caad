-- ===== src/Lib.antt =====
-- A model of contime, a library that keeps the history of snapshots under events that arrive in
-- any order, and theorems about it.
--
-- Parts and files:
-- - Key and Ord: `ContimeKey` of src/key.rs and its derived order, first by time, then by id.
-- - Traits: `Snapshot`, `Event`, `ApplyEvent` and `EventLanes` of src/traits.rs as records of
--   functions. A method that takes `&mut self` returns the new value. `SetsTime` and `IgnoresTime`
--   say of an implementation that `set_time` sets the time and nothing else, and that the effect
--   of an event does not depend on the time that the snapshot carries.
-- - BTreeMap, with Sorted, Ranges, Totals and Same: the map of the standard library, as the list
--   of its entries in the order of the keys. `range` panics on bounds that are out of order, as
--   the documentation of the standard library says, whatever the map holds.
-- - Apply: `replay_and_checkpoint` and `apply_event_in_place` of src/apply.rs, with the latest
--   event (Latest, Behind), an event out of order (OutOfOrder, Late) and the stale checkpoints
--   (Stale). Layers has the invariant of checkpoints under several authoritative snapshots, Values
--   that of a predicate on snapshots.
-- - History: `LocalSnapshotHistory` of src/history.rs with `new`, `advance`, `apply_event`,
--   `apply_snapshot` and `snapshot_at`. Channel is the bounded channel of reconciliations.
--   History/Ledger is the abstract view: a ledger of the events and of the authoritative snapshots
--   in force, with no checkpoints; Refines, Answers, Kept and Horizon relate the methods to it.
--   History/Kept follows a predicate on snapshots through the methods. Notify has the
--   reconciliations of late events, Freed the bytes that pruning frees.
-- - Worker: the loop of `handle_worker` of src/worker.rs over the histories of one thread, and
--   `fetch_saturating_add_signed` on the counter of bytes. Table is the hash map of the crate ahash.
--   Worker/Store and Worker/Answers give the abstract store, one ledger for each id, that a worker
--   implements.
-- - Router: src/router.rs, the memory budget (Budget), the choice of a worker by the hash of an
--   id, and what the calls put into the channels (Posting, Sending, Broadcast). A channel for a
--   reply is known by a number, and its receiver by the message that the other end has gone out
--   with.
-- - System: the router with its threads. A `Step` is a call of the router, a single send of a call
--   that is under way (`Sends`), a turn of one thread (`turn`: the flag, `recv`, the arm of the
--   message) or the drop of a worker; `Reach` is what a start may come to by steps in any order.
--   Children: Calls, Invariant and Safety for what holds in every reachable system, Progress and
--   Drain for the end of the work, Commute for the order of turns, Holding and Service for the
--   system as one abstract store.
-- - Handle: src/handle.rs, the handles that wait for replies, by blocking, by polling, and as
--   futures (Waiting), and by polling again and again (Left, Repeated).
-- - Lanes: the enums and traits that the macro of src/macros.rs makes of one snapshot type
--   (Lanes, Same) and of several (Multi, Mapped, Typed).
-- - Views: src/flume_ext.rs, a receiver of lanes as an iterator over snapshots.
-- - Tests: the tests inside src/apply.rs and src/history.rs, which Examples/Sources runs; one
--   of them asks for a range whose bounds are out of order.
-- - OrderedValues: the snapshot, the events and `main` of examples/ordered_values.rs.
-- - Api: src/api.rs and the calls of the router that wait: the errors that a caller sees (Errors),
--   and the start of the router and its threads (Start).
-- - Fixtures: the snapshot and the events of src/test, which the crate exports.
-- - Prelude: numbers, lists and machine words; Sizes: deltas of bytes.
-- - Examples: the theorems at concrete inputs, over the fixtures, with a list as the channel, as
--   the hash map and as the inbox of a worker.
--
-- How the parts meet: the router sends a message to the worker of the snapshot's id, the worker
-- finds or makes the history of the id and calls one of its methods, and adds the delta of bytes
-- that the method returns to the counter that the router reads. Handles collect the replies.
--
-- Conventions: a call that panics is `none`, in the router the outcome `panics`. The arithmetic of
-- i64 and u64 wraps around, as in a release build. Ids and hashes are natural numbers. A retried
-- exchange on the counter is a list of the values that other threads leave there meanwhile.
-- `try_recv_loop` has the length of the list as its fuel: each round removes a receiver or passes
-- one, so that this is enough. `block_on` and `poll_until` poll a given number of times; their
-- theorems say how many are enough. In System a turn is one step with the message that it handles.
-- A call is one step where nothing comes between its sends, and a step for each send otherwise; a
-- single send is not held back by the budget, which the call has read before. A `send` that waits
-- for room is a step that has not happened yet. A panic ends a thread, and the drop of its
-- receiver loses what waits there; what the thread has added to the counter for that message by
-- then is left out. The drop of a worker sets the flag and sends `Shutdown`; it does not wait for
-- the thread in the model. The calls that wait return the router as their sends leave it; what the
-- threads do meanwhile is in System.
--
-- Parameters: the channels (flume), the hash map and the hash function (ahash). What is used of
-- them is named in `IsBounded`, `IsTable`, `IsFifo` and `IsStream`. The trait methods of the types
-- that the lane macro is given, the conversions of src/api.rs between lanes and what they hold,
-- and the conversion of an event into the type of events of a target (`Declared`).
--
-- Not modelled: what operating system and runtime do for threads and futures, the output of
-- examples/ordered_values.rs, the integration tests and benchmarks, which only call the library,
-- and the crate root (re-exports).
pub mod Prelude
pub mod Ord
pub mod BTreeMap
pub mod Traits
pub mod Key
pub mod Sizes
pub mod Apply
pub mod Channel
pub mod History
pub mod Table
pub mod Views
pub mod Worker
pub mod Router
pub mod Handle
pub mod Api
pub mod System
pub mod Lanes
pub mod OrderedValues
pub mod Fixtures
pub mod Tests
mod Examples
