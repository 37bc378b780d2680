-- ===== src/Engine.antt =====
-- One device's side of a one-to-one call in the browser
-- (apps/web/src/features/calls/CallEngine.ts): the state, what each operation does to it, and the
-- events that drive it.
pub mod Endings
mod Examples
pub mod GivesUp
pub mod Notices
pub mod Paying
pub mod Phases
pub mod StillWaiting
pub mod Waiting
pub mod Running
pub mod WellFormed
pub use State.*
pub use Peer.*
pub use Operations.*
pub use Video.*
mod State
mod Peer
mod Operations
mod Video
