-- ===== src/Sessions.antt =====
-- Login sessions and sign-in (apps/api/src/auth/auth.service.ts and the tables that it uses).
pub mod Requests
pub mod AuthTokens
pub mod Guesses
pub mod Changes
pub mod Lifetime
pub mod Soundness
pub mod LoginDelay
pub mod LoginLink
pub mod Races
pub mod Rotation
mod Examples
pub mod Spending
pub use Table.*
mod Table
