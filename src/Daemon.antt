-- ===== src/Daemon.antt =====
-- The background daemon (daemon/): its state file, its scheduler and its self-throttle.
pub mod State
pub mod Scheduler
pub mod Throttle
