-- ===== src/Groups.antt =====
-- Members of group conversations (apps/api/src/db/conversations.ts).
pub mod Leaving
pub mod Concurrent
pub mod Adding
pub mod Notify
mod Examples
pub use Table.*
mod Table
