-- ===== src/Messages/Writes.antt =====
-- Everything that writes messages or read positions, as values: the locked part of an append, the
-- statements on one message and those of apps/api/src/db/conversations.ts on a read position.
use videochat.Prelude.{ℕ, Option, List, [], ◌∷◌, update, returning, head?, ltb, if◌then◌else◌}
use videochat.Tables.{Membership, is_member_row}
use videochat.Messages.Table.{Chat, AppendMessageInput, append_locked, advance, commit}
use videochat.Messages.Edits.{set_message_link_preview, edit_message_body, soft_delete_message}

unfoldable pub mark_conversation_read :
    List Membership → ℕ → ℕ → ℕ → List Membership × Option Membership
mark_conversation_read memberships conversation user seq = (
  update (is_member_row conversation user) (advance seq) memberships,
  head? (returning (is_member_row conversation user) (advance seq) memberships),
)

abbrev pub least : ℕ → ℕ → ℕ
least a b = if ltb b a then b else a

abbrev pub lower : ℕ → Membership → Membership
lower target m = record m { last_read_seq = least m.last_read_seq target }

unfoldable pub mark_conversation_unread :
    List Membership → ℕ → ℕ → ℕ → List Membership × Option Membership
mark_conversation_unread memberships conversation user target = (
  update (is_member_row conversation user) (lower target) memberships,
  head? (returning (is_member_row conversation user) (lower target) memberships),
)

pub data Write : Type 0 where
  append : (input : AppendMessageInput) → (id : ℕ) → (now : ℕ) → Write
  edit : (id : ℕ) → (body : ℕ) → (mentions : List ℕ) → (now : ℕ) → Write
  preview : (id : ℕ) → (preview : Option ℕ) → (expected_body : Option ℕ) → Write
  delete : (id : ℕ) → (now : ℕ) → Write
  mark_read : (conversation : ℕ) → (user : ℕ) → (seq : ℕ) → Write
  mark_unread : (conversation : ℕ) → (user : ℕ) → (target : ℕ) → Write

unfoldable pub exec_write : Chat → Write → Chat
exec_write chat (append input id now) = (commit chat (append_locked chat input id now)).0
exec_write chat (edit id body mentions now) = record chat {
  messages = (edit_message_body chat.messages id body mentions now).0;
}
exec_write chat (preview id p expected_body) = record chat {
  messages = (set_message_link_preview chat.messages id p expected_body).0;
}
exec_write chat (delete id now) = record chat {
  messages = (soft_delete_message chat.messages id now).0;
}
exec_write chat (mark_read conversation user seq) = record chat {
  memberships = (mark_conversation_read chat.memberships conversation user seq).0;
}
exec_write chat (mark_unread conversation user target) = record chat {
  memberships = (mark_conversation_unread chat.memberships conversation user target).0;
}

unfoldable pub exec_writes : Chat → List Write → Chat
exec_writes chat [] = chat
exec_writes chat (w ∷ ws) = exec_writes (exec_write chat w) ws
