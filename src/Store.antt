-- ===== src/Store.antt =====
-- runkod/store.go: MemStore, the in-memory store, one record for its maps and one function for each
-- method. The lock makes a method one step. `now` is what the clock reads, in seconds.
pub mod Model
pub mod Changes
pub mod Reviews
pub mod CheckRuns
pub mod Deploys
pub mod Workspaces
pub mod Accounts
pub mod Invites
pub mod Orgs
pub mod Listings
pub mod Releases
pub mod Mirrors
pub mod Outbox
pub mod Lifecycle
mod Examples
