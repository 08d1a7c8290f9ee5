-- ===== src/Manager.antt =====
-- manager/std/manager.go: the standard manager. Each child has one group of its methods, and a
-- child of that one its proofs.
pub mod State
pub mod Flags
pub mod Process
pub mod Fitness
pub mod Workers
pub mod Lifecycle
pub mod Sync
pub mod Invariant
