-- ===== src/Engine.antt =====
-- The engine package: jobs, their environments, and the engine that runs them.
mod Tests
pub mod Env
pub mod Streams
pub mod Registry
pub mod Job
pub mod Shutdown
pub mod Table
