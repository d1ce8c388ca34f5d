-- ===== src/Index.antt =====
-- platform/index: what the index of a tree decides.
pub mod Types
pub mod Selection
pub mod Infos
pub mod AutoApprove
