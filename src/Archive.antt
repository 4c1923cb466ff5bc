-- ===== src/Archive.antt =====
-- The archive package: what differs between two directory trees, and layers.
mod Tests
pub mod Changes
pub mod Aufs
