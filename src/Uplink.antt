-- ===== src/Uplink.antt =====
-- The cumulative acknowledgement protocol of edge-uplink/src/lib.rs: the ranges that a loss marker
-- and an acknowledgement carry, and the journal that moves its cursor over them.
pub mod Types
pub mod Ranges
pub mod Journal
pub mod Loss
pub mod GapAck
pub mod Ack
pub mod WellFormed
pub mod History
pub mod Accounting
mod Tests
