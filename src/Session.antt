-- ===== src/Session.antt =====
-- The link session of edge-uplink/src/session.rs: the wire types it reads (Wire), its state and timers (Link), and
-- what an inbound envelope does (Inbound). Events has runs of events and what every run keeps; Cases says what one
-- event does, and Backoff how the waits grow.
pub mod Wire
pub mod Link
pub mod Inbound
pub mod Events
pub mod Cases
pub mod Backoff
pub mod Sends
pub mod Tests
