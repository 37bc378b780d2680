-- ===== src/Calls.antt =====
-- One-to-one calls: apps/api/src/db/calls.ts. Each function is one conditional statement over the
-- `calls` table, or up to three that share no transaction, and returns rows that it changed; `now`
-- is its clock. The service over it
-- is Calls/Signaling, the life cycle of a call Calls/Lifecycle.
pub mod Statements
pub mod Lifecycle
pub mod Races
pub mod Answers
pub mod Silenced
pub mod Signaling
mod Examples
pub use Table.*
mod Table
