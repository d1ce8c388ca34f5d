-- ===== src/Daemon.antt =====
-- runkod: the decisions of the daemon over its store, its settings and the repository.
pub mod Config
pub mod Repo
pub mod Gate
pub mod Aftermath
pub mod Land
pub mod LandStack
pub mod Actions
pub mod Marks
pub mod Carry
pub mod Automerge
pub mod Agents
pub mod Fixtures
