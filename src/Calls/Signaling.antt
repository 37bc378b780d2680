-- ===== src/Calls/Signaling.antt =====
-- The call signalling service: apps/api/src/calls/call-signaling.service.ts. A handler takes the
-- `calls` table and returns it with the messages it sends, in order. Handlers run one after the
-- other here; what holds when their statements interleave is in Calls/Races and Calls/Answers.
-- The zod schemas are not modelled: an event carries what `safeParse` makes of its payload, `none`
-- where that fails. `get_avatar_url` stands for the S3 service and `publish_ok` for whether a
-- publish through Redis succeeds.
pub mod Protocol
pub mod Announce
pub mod Invite
pub mod Answer
pub mod Handle
pub mod Runs
pub mod Announcements
pub mod Served
pub mod Silence
pub mod SilenceAnswers
pub mod Unheard
pub mod Authority
pub mod Sweeping
pub mod Relaying
