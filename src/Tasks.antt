-- ===== src/Tasks.antt =====
-- Background tasks: app/services/runtime_state.py, the dataclass, the in-memory repository and
-- BackgroundTaskService. A BackgroundTask is one mutable object that the repository and its callers
-- share: the objects lie on a heap, and the dict and the callers hold references, positions in it.
-- Times are microseconds.
pub mod Object
pub mod Repository
pub mod Lifecycle
pub mod Claim
pub mod Heap
pub mod History
pub mod Moves
pub mod Invariant
pub mod Lease
