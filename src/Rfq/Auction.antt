-- ===== src/Rfq/Auction.antt =====
-- services/rfq-engine/src/auction.ts: the state of `AuctionEngine` and its handlers.
pub mod State
pub mod Best
pub mod Opening
pub mod Bidding
pub mod Lifecycle
pub mod Terminal
pub mod Execution
pub mod Recovery
pub mod Collateral
pub mod Sound
pub mod Once
pub mod Reading
