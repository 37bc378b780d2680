-- ===== src/GroupCalls.antt =====
-- Group calls: apps/api/src/db/group-calls.ts and how GroupCallsService
-- (apps/api/src/group-calls/group-calls.service.ts) starts, joins and ends them.
pub mod Joining
pub mod Single
pub mod Together
pub use Table.*
mod Examples
mod Table
