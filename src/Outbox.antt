-- ===== src/Outbox.antt =====
-- The outbox of the mobile client (apps/mobile/src/outbox/flush.ts).
pub mod Flush
pub mod Rounds
pub mod Order
mod Examples
