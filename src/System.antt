-- ===== src/System.antt =====
-- The two controllers together.
pub mod Mutex
pub mod Glance
pub mod Runs
pub mod Once
pub mod Workers
pub mod Exclusion
pub mod Progress
