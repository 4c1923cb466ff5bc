-- ===== src/Daemon.antt =====
-- The daemon package: the life of a container.
mod Tests
pub mod State
pub mod Monitor
