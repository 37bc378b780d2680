-- ===== src/Lib.antt =====
-- Verification of the videochat application.
--
-- The application is a monorepo: a server (apps/api, NestJS over PostgreSQL and Redis), a mobile
-- client (apps/mobile), a web client (apps/web) and the contracts that they share
-- (packages/shared). The server's data-access functions (apps/api/src/db) are single SQL statements
-- or short transactions; services call them, and publish events to the clients over a socket.
--
-- Modelling. An identifier (uuid, ulid, connection id) and a timestamp (milliseconds) is a natural
-- number: the code only compares identifiers for equality and orders timestamps. A table is the list
-- of its rows with the columns that the modelled functions read or write, and a statement is one
-- atomic function of the table: that is what PostgreSQL promises of a single statement. The clock is
-- an argument `now`. A handler is a function from the tables to the tables and the list of its
-- effects, in order: messages to sockets and users, pushes, and the listeners it runs.
-- Concurrency is a list of statements in any order. There is no fuel: every loop is over a list or
-- counts down from a bound that the source has, such as the 25 pages of a gap sync.
--
-- Files.
--   Prelude            tests, lists and the meaning of SQL statements, with their lemmas
--   Tables             the rows that several components share (apps/api/src/db/schema.ts,
--                      packages/shared/src/domain.ts), `isConversationMember`, `isBlocked`
--   Calls/Table        the calls table: apps/api/src/db/calls.ts, one function per function
--   Calls/Statements   each INSERT and UPDATE of these functions as a value, and a run of them: the
--                      functions open no transaction, so their statements interleave one by one
--   Calls/Lifecycle, Races, Answers, Silenced
--                      facts over every run of statements
--   Calls/Signaling    CallSignalingService (apps/api/src/calls/call-signaling.service.ts):
--                      Protocol the events and effects, Announce `announceEnded`, Invite, Answer and
--                      Handle the handlers, `handleDisconnect` and `sweep`, these two also with an
--                      UPDATE that fails (the statements of the other handlers are taken not to
--                      fail); the other children are proofs: Runs and Announcements (handlers as runs
--                      of statements), Served, Silence and Unheard (over any requests), Authority,
--                      Sweeping, Relaying
--   Messages/Table     the transaction of `appendMessageWithStatus` (apps/api/src/db/messages.ts); its
--                      part from the row lock on is `append_locked`, the part that is atomic where
--                      appends to one conversation run at the same time
--   Messages/Edits     link previews, edits and deletes of one message (same file)
--   Messages/Paging    `listMessagesPage`, `listMessagesAfter` (same file)
--   Messages/Writes    any write of a message or a read position as a value, and a run of them;
--                      `markConversationRead` and `markConversationUnread` of
--                      apps/api/src/db/conversations.ts
--   Messages/Commits, Sequence, Keys, ById, Tombstones
--                      facts over every run of writes
--   Messages/History   successive pages of the history
--   Messages/Reactions, Toggling
--                      apps/api/src/db/reactions.ts with the transaction of
--                      apps/api/src/messages/reactions.service.ts
--   Client/MessagesState, Merging
--                      apps/mobile/src/data/messagesState.ts
--   Client/GapSync     apps/web/src/features/chat/gapSync.ts and apps/web/src/lib/lastSeenSeq.ts
--   Client/CatchUp     the loop against the server's pages
--   Groups/Table       members of groups: apps/api/src/db/conversations.ts and
--                      apps/api/src/db/live-users.ts
--   Groups/Notify      muting and who is notified (apps/api/src/db/conversations.ts)
--   Groups/Leaving, Concurrent, Adding
--                      facts about them
--   Client/ReadReceipts, Throttled
--                      apps/web/src/features/chat/readReceipts.ts
--   Outbox/Flush       `flushOutbox` of apps/mobile/src/outbox/flush.ts
--   Outbox/Rounds, Order
--                      one round of its loop, and a run
--   Sessions/Table     refresh tokens: apps/api/src/db/refresh-tokens.ts
--   Sessions/Requests  `refresh`, `logout`, `issueSession` and the revocations of the password changes
--                      (apps/api/src/auth/auth.service.ts), a statement at a time: what a request
--                      still has to do is part of the state
--   Sessions/Rotation, Changes, Soundness, Lifetime, Races
--                      facts over every interleaving of these statements
--   Sessions/AuthTokens, Spending
--                      apps/api/src/db/auth-tokens.ts, and facts over every run of its statements
--   Sessions/LoginDelay, Guesses
--                      password sign-in with its delay (auth.service.ts, apps/api/src/db/users.ts)
--   Sessions/LoginLink `verifyLoginLink` (auth.service.ts)
--   Engine/State, Peer, Operations, Video, Running
--                      CallEngine (apps/web/src/features/calls/CallEngine.ts): the state, what ends a
--                      call and its peer connection, the methods and timers, the camera and the
--                      shared screen, and the events. What the browser answers is an argument of an
--                      event; a due timer fires before the next event
--   Engine/Phases, WellFormed
--                      the timers and the peer connection that each phase has
--   Engine/Waiting, StillWaiting, GivesUp
--                      reconnecting, until its timer is due
--   Engine/Notices, Paying, Endings
--                      the messages that begin and end calls
--   GroupCalls/Table   apps/api/src/db/group-calls.ts
--   GroupCalls/Joining `startOrGetGroupCall` and `ensureRunningCall`
--                      (apps/api/src/group-calls/group-calls.service.ts), with three attempts each as
--                      in the source, among the statements of others
--   GroupCalls/Single, Together
--                      facts over every such run
--   Presence/Connections
--                      one user's connections in Redis: the transactions and scripts of PresenceService
--                      (apps/api/src/realtime/presence.service.ts)
--   Presence/Live      the same without Redis
--   Presence/Visibility
--                      `canSeePresence` (same file)
--   */Examples         concrete runs
--
-- Not modelled: the transport (sockets, Redis, push, mail, S3, WebRTC, the SFU), which the handlers'
-- effects stand for; the user interfaces; validation schemas; logging and metrics; hashing and the
-- signing of access tokens; of the call engine, background blur and the switching of devices; the services over the modelled tables other than the call signalling and sign-in,
-- the sweep of group calls, moderation and account deletion, which come next.
pub mod Calls
pub mod Client
pub mod Engine
pub mod GroupCalls
pub mod Groups
pub mod Messages
pub mod Outbox
pub mod Prelude
pub mod Presence
pub mod Sessions
pub mod Tables
