-- ===== src/Calls/Signaling/Protocol.antt =====
-- The messages of call signalling (packages/shared/src/calls.ts), what CallSignalingService does to
-- the outside, and what its handlers read besides the `calls` table.
use Prim.Native.String.{String}
use videochat.Prelude.{ℕ, Bool, Option, List}
use videochat.Tables.{User, Conversation, Membership, Block}
use videochat.Calls.Table.{CallRow, CallMedia, CallEndReason}

pub record CallerSummary : Type 0 where
  pub id : ℕ
  pub display_name : String
  pub avatar_url : Option String

-- The messages to clients, `CALL_EVENTS` of packages/shared/src/calls.ts.
pub data RelayType : Type 0 where
  offer answer ice media : RelayType

pub data ServerEvent : Type 0 where
  incoming : ℕ → ℕ → CallMedia → CallerSummary → ServerEvent
  rings : ℕ → ServerEvent
  accepted : ℕ → ℕ → ServerEvent
  call_ended : ℕ → CallEndReason → ServerEvent
  relayed : RelayType → ℕ → String → ServerEvent
  resumed : ℕ → ServerEvent

-- What a handler does to the outside: `publishToUser`, `publishToConnection`, an answer on the
-- socket of the request, and the two kinds of listeners.
pub data Effect : Type 0 where
  to_user : ℕ → ServerEvent → Effect
  to_connection : ℕ → ServerEvent → Effect
  to_socket : ServerEvent → Effect
  ended_listeners : CallRow → Effect
  incoming_listeners : CallRow → CallerSummary → Effect

-- What the handlers read besides the calls.
pub record Context : Type 0 where
  pub conversations : List Conversation
  pub memberships : List Membership
  pub users : List User
  pub blocks : List Block
  pub get_avatar_url : Option String → Option String
  pub publish_ok : Effect → Bool
  pub ring_timeout_sec : ℕ
  pub reconnect_grace_sec : ℕ

-- `RealtimeSocket`.
pub record Client : Type 0 where
  pub user_id : Option ℕ
  pub connection_id : Option ℕ
  pub display_name : Option String
  pub is_open : Bool

pub record CallInvite : Type 0 where
  pub call_id : ℕ
  pub conversation_id : ℕ
  pub media : CallMedia

pub record Relay : Type 0 where
  pub call_id : ℕ
  pub content : String

pub data Action : Type 0 where
  decline cancel end : Action

-- An envelope by its `type`, with the parsed payload.
pub data ClientEvent : Type 0 where
  invite : Option CallInvite → ClientEvent
  rang : Option ℕ → ClientEvent
  accept : Option ℕ → ClientEvent
  hang_up : Action → Option ℕ → ClientEvent
  relay : RelayType → Option Relay → ClientEvent
  resume : Option ℕ → ClientEvent
  other : ClientEvent

abbrev pub Outcome : Type 0
Outcome = List CallRow × List Effect
