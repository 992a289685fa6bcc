-- ===== src/NodeImage.antt =====
-- The controller of OpenStackNodeImageRelease,
-- internal/controller/openstacknodeimagerelease_controller.go.
pub mod Cloud
pub mod Glance
pub mod Connect
pub mod Import
pub mod Await
pub mod Timeout
pub mod Verdict
pub mod Reconcile
pub mod Readiness
pub mod Writes
pub mod Safety
pub mod Secrets
pub mod Frame
pub mod Absence
pub mod Progress
pub mod Listing
pub mod Creations
pub mod Importing
pub mod Service
pub mod Stages
pub mod BodyTurn
pub mod Turn
pub mod Convergence
pub mod Stuck
