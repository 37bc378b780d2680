-- ===== src/Tables.antt =====
-- Rows of the database tables that several components read (apps/api/src/db/schema.ts,
-- packages/shared/src/domain.ts). An identifier (uuid, ulid, connection id) is opaque text that the
-- code only compares for equality, and stands as a number; so does a timestamp, in milliseconds.
-- Columns that no modelled function reads are left out.
use Prim.Native.String.{String}
use videochat.Prelude.{ℕ, Bool, true, false, Option, List, any, is_null, ◌==◌, ◌&&◌}

pub data ConversationType : Type 0 where
  direct group : ConversationType

abbrev pub is_direct : ConversationType → Bool
is_direct direct = true
is_direct group = false

pub data MemberRole : Type 0 where
  admin member : MemberRole

abbrev pub is_admin : MemberRole → Bool
is_admin admin = true
is_admin member = false

pub data LastSeenVisibility : Type 0 where
  everyone contacts nobody : LastSeenVisibility

pub record User : Type 0 where
  pub id : ℕ
  pub display_name : String
  pub avatar_key : Option String
  pub deleted_at : Option ℕ

pub record Conversation : Type 0 where
  pub id : ℕ
  pub kind : ConversationType
  pub last_seq : ℕ
  pub last_message_at : Option ℕ

pub record Membership : Type 0 where
  pub conversation_id : ℕ
  pub user_id : ℕ
  pub role : MemberRole
  pub last_read_seq : ℕ
  pub muted_until : Option ℕ
  pub joined_at : ℕ
  pub left_at : Option ℕ

pub record Block : Type 0 where
  pub blocker_id : ℕ
  pub blocked_id : ℕ

-- The condition "conversation, user, not left" that every membership query has.
abbrev pub is_member_row : ℕ → ℕ → Membership → Bool
is_member_row c u m = m.conversation_id == c && m.user_id == u && is_null m.left_at

-- `isConversationMember` of apps/api/src/db/conversations.ts.
unfoldable pub is_conversation_member : List Membership → ℕ → ℕ → Bool
is_conversation_member ms c u = any (is_member_row c u) ms

-- `isBlocked` of apps/api/src/db/blocks.ts: whether the first user blocked the second.
unfoldable pub is_blocked : List Block → ℕ → ℕ → Bool
is_blocked bs blocker blocked = any (λ b. b.blocker_id == blocker && b.blocked_id == blocked) bs
