-- ===== src/Presence.antt =====
-- Who is online: PresenceService of apps/api/src/realtime/presence.service.ts.
pub mod Connections
pub mod Live
pub mod Visibility
mod Examples
