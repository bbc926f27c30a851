-- ===== src/Commands.antt =====
-- The command service: app/services/commands.py.
pub mod Service
pub mod Evidence
pub mod Reports
pub mod Expiry
