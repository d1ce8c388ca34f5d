-- ===== src/Checks.antt =====
-- platform/checks: check runs, check sets, merge requirements, staleness and delivery backoff.
pub mod Runs
pub mod Sets
pub mod Requirements
pub mod Delivery
