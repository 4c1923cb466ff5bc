-- ===== src/Runconfig.antt =====
-- The runconfig package: a container's configuration.
pub mod Config
pub mod Merge
pub mod NetworkMode
pub mod Compare
