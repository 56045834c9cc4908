-- ===== src/Repo.antt =====
-- src/worker/do/repo: the durable object that is the authority on one repository.
pub mod State
pub mod Catalog
pub mod Refs
pub mod Metadata
pub mod Alarm
pub mod Leases
pub mod Plan
pub mod Compaction
pub mod Requests
pub mod Content
pub mod Receive
pub mod Maintenance
pub mod Packs
pub mod Object
mod Tests
