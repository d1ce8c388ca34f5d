-- ===== src/Affected.antt =====
-- platform/affected/compute.go: the data of the affected computation, its parts and their proofs.
pub mod Types
pub mod Owner
pub mod Closure
pub mod Compute
pub mod Names
