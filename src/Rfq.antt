-- ===== src/Rfq.antt =====
-- services/rfq-engine: the request-for-quote engine.
pub mod Types
pub mod Stored
pub mod Store
pub mod Quotes
pub mod Submitter
pub mod Executor
pub mod Auction
mod Tests
