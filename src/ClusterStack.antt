-- ===== src/ClusterStack.antt =====
-- The controller of OpenStackClusterStackRelease,
-- internal/controller/openstackclusterstackrelease_controller.go.
pub mod Tag
pub mod TagLaws
pub mod Owner
pub mod Ownership
pub mod Assets
pub mod Download
pub mod NodeImages
pub mod Reconcile
pub mod Readiness
pub mod Lock
pub mod Frame
pub mod Loop
pub mod Order
pub mod Fetching
pub mod Progress
pub mod Service
pub mod Stages
pub mod BodyTurn
pub mod Convergence
