-- ===== src/Production.antt =====
-- The production services: app/services/command_state.py, and the expiry and the overdue jobs of
-- app/services/production.py.
pub mod Commands
pub mod Expiry
pub mod Verdicts
pub mod Money
pub mod Frames
pub mod Endings
pub mod Coherence
pub mod Overdue
