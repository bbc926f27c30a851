-- ===== src/Refunds.antt =====
-- app/services/refund_intents.py: refund intents, their outcomes, and the settlement of the
-- payment and the order. The row locks of `for update` serialise the transactions: one call is
-- one step on the tables.
pub mod Intents
pub mod Outcomes
pub mod Totals
