-- ===== src/Dispatch.antt =====
-- The dispatch of queued orders: the durable queue of requests, the dispatch of the next order,
-- and the batch that a worker runs.
pub mod Queue
pub mod Rows
pub mod Refinement
pub mod Wakeups
pub mod Next
pub mod Placed
pub mod Gates
pub mod Single
pub mod Batch
pub mod Retries
