-- ===== src/ProductionState.antt =====
-- app/production_state.py: job and order statuses, the order graph, and the decision on a
-- device event.
pub mod Orders
pub mod Jobs
pub mod Busy
pub mod Lockstep
