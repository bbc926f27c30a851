-- ===== src/Callbacks.antt =====
-- app/payment_service.py: a paid callback, from the channel's values to the order.
pub mod Amounts
pub mod Confirm
pub mod Sound
pub mod Apply
pub mod First
