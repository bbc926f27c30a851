-- ===== src/Transitions.antt =====
-- app/payment_transitions.py and app/services/order_state.py: a decision, and the statement
-- that persists it.
pub mod Payments
pub mod Orders
pub mod Moves
pub mod OrderMoves
