-- ===== src/DeviceEvents.antt =====
-- The events of a device: `reconcile_device_event` of app/services/production.py, and its watchdog.
pub mod Metrics
pub mod Failures
pub mod Replies
pub mod Apply
pub mod Reconcile
pub mod Silent
pub mod NewRefunds
pub mod Refunding
pub mod Money
pub mod Frames
pub mod Steps
pub mod Lockstep
pub mod Coherence
pub mod Replays
pub mod Watchdog
