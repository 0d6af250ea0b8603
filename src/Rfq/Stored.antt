-- ===== src/Rfq/Stored.antt =====
-- services/rfq-engine/src/store.ts and types.ts: the stored form of RFQs and quotes.
pub mod Schema
pub mod Parsing
pub mod Rfqs
pub mod Quotes
pub mod RoundTrip
