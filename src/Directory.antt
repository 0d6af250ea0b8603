-- ===== src/Directory.antt =====
-- services/rfq-engine/src/subaccount-directory.ts: the directory of the subaccounts in Matching.
pub mod Projection
pub mod Indexer
mod Applying
pub mod Syncing
pub mod Replayed
pub mod Keyed
pub mod Keeping
mod Tests
