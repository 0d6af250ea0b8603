-- ===== src/Withdrawal.antt =====
-- services/rfq-engine: the durable record of withdrawals and the withdrawal engine.
pub mod Types
pub mod Store
pub mod Claims
pub mod Log
pub mod Amounts
pub mod Gateway
pub mod Maximum
pub mod Policy
pub mod Permission
pub mod Preview
pub mod Request
pub mod Prepare
pub mod Prepared
pub mod Replayed
pub mod State
pub mod Reconcile
pub mod Submission
pub mod Execution
pub mod Handlers
pub mod Events
pub mod Once
pub mod Settling
pub mod Attribution
mod Tests
