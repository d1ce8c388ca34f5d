-- ===== src/Land.antt =====
-- platform/land: the revalidation policy, the rebase and one attempt to land a change, with the
-- retry loop around it in runkod/land.go. Git itself is a parameter (Land.Git).
pub mod Revalidation
pub mod Rebase
pub mod Attempt
