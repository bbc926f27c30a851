-- ===== src/Ledger.antt =====
-- The money invariant of the payment and refund tables, which every operation of
-- app/services/refund_intents.py and app/payment_service.py keeps.
pub mod Sound
pub mod Creation
pub mod Intents
pub mod Automatic
pub mod Settlement
pub mod Outcomes
pub mod Refunding
