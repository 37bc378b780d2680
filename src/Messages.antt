-- ===== src/Messages.antt =====
-- Messages of conversations (apps/api/src/db/messages.ts).
pub mod Edits
pub mod Commits
pub mod Sequence
pub mod Keys
pub mod ById
pub mod Tombstones
pub mod Paging
pub mod Writes
pub mod History
pub mod Reactions
pub mod Toggling
mod Examples
pub use Table.*
mod Table
