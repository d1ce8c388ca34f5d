-- ===== src/Receive.antt =====
-- The receive funnel: the agent policy, the magic ref, the Change-Id trailer and the decision itself.
pub mod Policy
pub mod MagicRef
pub mod ChangeId
pub mod Funnel
