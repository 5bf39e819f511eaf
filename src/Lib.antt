-- ===== src/Lib.antt =====
-- Verification of orcastork, an engine that gathers typed data points about a session by running the
-- operators of a flow until nothing is left to run, under a lock whose epochs fence every store.
--
-- The parts, and the file that models each:
-- - orcastork/datapoints: a point's identity is its type and its value (`identity_key`); a second
--   observation only advances `last_retrieved`. DataPoint, with the identity's canonical form in
--   DataPoint/Hashing and the collection of collection.py in DataPoint/Collection.
-- - orcastork/adapters/memory/store.py: one session's points, stamped with the revisions at which
--   they were added and updated, and its epoch, watermarks, effect marks, deadline and fingerprint.
--   Store and Store/Effects; an operation of the class is a function on one session's state
--   (`SessionState`) and returns or raises beside the new state. The other files of Store are proofs.
-- - orcastork/orchestrator/mirror.py: the orchestrator's local copy of its session, which merges a
--   batch and forwards the outcome to the store. Mirror and Mirror/Reads; the state is the mirror
--   together with the store's sessions (`World`). The other files of Mirror are proofs.
-- - orcastork/orchestrator/orchestrator.py: the fields of the orchestrator together with its ports and
--   the locals of its loop are `Session` of Orchestrator/State, and a method is a function on it. The
--   merge point is Orchestrator/Merging, the plan of a pass Orchestrator/Planning, finished runs
--   Orchestrator/Completions, the inbox Orchestrator/Draining, the waits Orchestrator/Waiting, what
--   surrounds the loop Orchestrator/Setup, the loop `_gather` Orchestrator/Gathering, the aggregation
--   Orchestrator/Aggregating and `_run` Orchestrator/Running; the signals of one operator's task are
--   Orchestrator/Tasks. The other files of Orchestrator are proofs.
-- - orcastork/manager/manager.py: Manager, over one session; what other processes do comes with each
--   spawn (`Spawn`).
-- - orcastork/adapters/memory/lock.py: Lock; the lock and the store together: Ownership.
-- - orcastork/adapters/memory/inbox.py: Inbox.
-- - orcastork/operators/effects.py: EffectGuard, over the store's effect marks; EffectGuard/Steps has the
--   store calls of many attempts in any order.
-- - orcastork/adapters/memory/durable_store.py and orcastork/aggregation/helpers.py: Durable and
--   Durable/Helpers.
-- - orcastork/scheduling/readiness.py and quiescence.py, orcastork/graph and
--   orcastork/capabilities/availability.py: Classes, Scheduling, Graph with Graph/Cycles, and
--   Availability with the activator in Availability/Refresh; the
--   `while changed` loop that they share is Fixpoint.
-- - orcastork/datapoints/view.py: View; orcastork/scheduling/completion.py: Completion.
-- - orcastork/scheduling/debounce.py and watermark.py, orcastork/adapters/memory/gate.py and
--   orcastork/aggregation/retry.py: Rerun.
-- - orcastork/adapters/memory/catalog.py: Catalog.
-- - orcastork/adapters/memory/datapoint_archive.py and orcastork/archive/sealing.py: Archive;
--   orcastork/adapters/memory/audit_sink.py: Audit.
-- Base holds what the others share: lists and dicts (an association list in insertion order, as
-- Python's), results and coroutines that change a state, and the errors of orcastork/exceptions.py.
-- Tests holds runs on concrete inputs.
--
-- How the code is read. Times are natural numbers of ticks on one clock, and `now` is an argument. A
-- class is a number; which classes a flow declares, with their bases and class variables, is a
-- parameter (`Classes`). A value is a JSON document, or anything else that Python can hash; one that
-- holds a Python set is left out. The
-- parsers that the inbox calls (`orjson`, pydantic) are a parameter (`Parsers`), and so are the cipher
-- and the hash of the archive (`Codec`). An await is a point
-- where others may act, so theorems that speak of several processes quantify over sequences of calls.
-- Loops are structural, but for `while changed`: that one runs on fuel, one round more than there
-- are items, and `loop-closed` of Fixpoint shows that this leaves nothing to do.
--
-- The loop of the orchestrator runs along a trace (`Wake`, `Trace`): how long each of its waits took, the
-- entries that others appended meanwhile, and the signals that the tasks put on the queue; and, where it
-- goes on to finalize, what others append until the check of the inbox, and from there to the release of
-- the lock. The bodies of operators are known by their signals alone; the body of an aggregator is a
-- parameter, a function on what it may reach (`Reach`). The aggregators that are launched together run one after the other. The trace
-- bounds the loop, and a trace that ends while the loop waits gives no result. The wait for the inbox
-- runs on fuel, of which two more than the ticks until the deadline are enough
-- (`wait_for_inbox-IsLeased` of Orchestrator/Leases). The steps of the completion tail are calls of
-- in-memory adapters, which return at once, so their timeout is left out.
--
-- Not modelled: logging and telemetry; the adapters for Redis and MongoDB, whose behaviour is that of
-- servers outside the repository; of orcastork/orchestrator/orchestrator.py the context of an
-- operator, and that the signals of a trace are those of its tasks; of orcastork/manager/manager.py the
-- takeover guard of one process; orcastork_lite, a smaller engine of its own; pydantic's validation.
pub mod Base
pub mod DataPoint
pub mod Store
pub mod Mirror
mod Tests
pub mod Lock
pub mod Orchestrator
pub mod Manager
pub mod Ownership
pub mod Inbox
pub mod EffectGuard
pub mod Durable
pub mod Fixpoint
pub mod Catalog
pub mod Classes
pub mod Scheduling
pub mod Availability
pub mod Graph
pub mod View
pub mod Archive
pub mod Audit
pub mod Completion
pub mod Rerun
