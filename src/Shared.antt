-- ===== src/Shared.antt =====
-- services/shared/src: what the services have in common.
pub mod Instruments
mod Bits
pub mod SubIds
mod Tests
