-- ===== src/Examples.antt =====
-- Runs of the controllers in a small world, and the theorems at concrete data.
mod Converging
mod Ensuring
mod Stuck
mod World
mod Settings
mod NodeImages
mod ClusterStacks
mod Keeping
mod Together
mod Workers
mod Manager
mod DeepCopies
mod Notes
