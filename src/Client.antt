-- ===== src/Client.antt =====
-- What the clients keep of conversations, and how they catch up with the server.
pub mod GapSync
pub mod CatchUp
pub mod MessagesState
pub mod Merging
pub mod ReadReceipts
pub mod Throttled
mod Examples
