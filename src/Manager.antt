-- ===== src/Manager.antt =====
-- The manager, cmd/main.go.
pub mod Flags
pub mod Startup
pub mod Main
pub mod Plan
pub mod Started
