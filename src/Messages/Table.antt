-- ===== src/Messages/Table.antt =====
-- The messages of conversations: apps/api/src/db/messages.ts, and the tables' columns in
-- apps/api/src/db/schema.ts. A message id (`ulid()`), a text and the JSON of a call, an attachment,
-- a link preview or an encrypted text are opaque here and stand as numbers: the code only stores
-- them and compares texts for equality.
use videochat.Prelude.{
  ℕ, ◌+◌, Bool, true, false, not, ◌&&◌, ◌||◌, Option, none, some, List, ◌∷◌, any, find, head?,
  update, returning, ltb, ◌==◌, null_eq, is_null, if◌then◌else◌,
}
use videochat.Tables.{Conversation, Membership, is_conversation_member}

pub data MessageType : Type 0 where
  text image file system call : MessageType

abbrev pub type_eq : MessageType → MessageType → Bool
type_eq text text = true
type_eq image image = true
type_eq file file = true
type_eq system system = true
type_eq call call = true
type_eq _ _ = false

-- The `meta` column: an object with optional keys. NULL and `{}` are different values of it.
pub record MessageMeta : Type 0 where
  pub call : Option ℕ
  pub attachment : Option ℕ
  pub link_preview : Option ℕ
  pub link_preview_dismissed : Bool
  pub mentions : Option (List ℕ)
  pub e2ee : Option ℕ

-- `{}`.
abbrev pub empty_meta : MessageMeta
empty_meta = record {
  call = none;
  attachment = none;
  link_preview = none;
  link_preview_dismissed = false;
  mentions = none;
  e2ee = none;
}

pub record MessageRow : Type 0 where
  pub id : ℕ
  pub conversation_id : ℕ
  pub seq : ℕ
  pub sender_id : Option ℕ
  pub client_msg_id : Option ℕ
  pub kind : MessageType
  pub body : Option ℕ
  pub reply_to_id : Option ℕ
  pub edited_at : Option ℕ
  pub deleted_at : Option ℕ
  pub created_at : ℕ
  pub meta : Option MessageMeta

pub record Attachment : Type 0 where
  pub id : ℕ
  pub message_id : Option ℕ
  pub processed_at : Option ℕ

-- The tables that the transaction reads and writes.
pub record Chat : Type 0 where
  pub conversations : List Conversation
  pub memberships : List Membership
  pub messages : List MessageRow
  pub attachments : List Attachment

pub record AppendMessageInput : Type 0 where
  pub conversation_id : ℕ
  pub sender_id : Option ℕ
  pub body : Option ℕ
  pub kind : Option MessageType
  pub client_msg_id : Option ℕ
  pub reply_to_id : Option ℕ
  pub meta : Option MessageMeta
  pub attachment_id : Option ℕ

-- What the transaction throws. The last one is PostgreSQL's, for a key that is taken.
pub data AppendError : Type 0 where
  client_msg_id_conflict conversation_not_found sender_not_a_member : AppendError
  attachment_unavailable unique_violation : AppendError

pub data Appended : Type 0 where
  rolled_back : AppendError → Appended
  committed : Chat → MessageRow → Appended

-- `input.type ?? 'text'`.
abbrev pub type_of : AppendMessageInput → MessageType
type_of input = elim input.kind [ none ↦ text | some t ↦ t ]

abbrev pub has_key : ℕ → ℕ → MessageRow → Bool
has_key sender key r = null_eq r.sender_id sender && null_eq r.client_msg_id key

unfoldable pub find_by_client_msg_id : List MessageRow → ℕ → ℕ → Option MessageRow
find_by_client_msg_id messages sender key = find (has_key sender key) messages

abbrev pub link_where : ℕ → Attachment → Bool
link_where id a = a.id == id && is_null a.message_id && not (is_null a.processed_at)

abbrev pub link_set : ℕ → Attachment → Attachment
link_set message a = record a { message_id = some message }

-- The table, and whether a row was linked.
unfoldable pub link_attachment_to_message : List Attachment → ℕ → ℕ → List Attachment × Bool
link_attachment_to_message attachments id message =
    (update (link_where id) (link_set message) attachments, any (link_where id) attachments)

-- The unique indexes on `id`, `(conversation_id, seq)` and `(sender_id, client_msg_id)`.
abbrev pub same_key : Option ℕ → Option ℕ → MessageRow → Bool
same_key (some sender) (some key) r = has_key sender key r
same_key _ _ r = false

abbrev pub collides : MessageRow → MessageRow → Bool
collides new r =
    r.id == new.id
    || (r.conversation_id == new.conversation_id && r.seq == new.seq)
    || same_key new.sender_id new.client_msg_id r

abbrev pub bump : ℕ → Conversation → Conversation
bump now c = record c { last_seq = c.last_seq + 1; last_message_at = some now }

abbrev pub greatest : ℕ → ℕ → ℕ
greatest a b = if ltb a b then b else a

abbrev pub advance : ℕ → Membership → Membership
advance seq m = record m { last_read_seq = greatest m.last_read_seq seq }

abbrev pub sender_is_member : List Membership → ℕ → Option ℕ → Bool
sender_is_member memberships conversation none = true
sender_is_member memberships conversation (some sender) =
    is_conversation_member memberships conversation sender

abbrev pub read_own : List Membership → ℕ → Option ℕ → ℕ → List Membership
read_own memberships conversation none seq = memberships
read_own memberships conversation (some sender) seq =
    update (λ m. m.conversation_id == conversation && m.user_id == sender) (advance seq) memberships

unfoldable pub message_row : AppendMessageInput → ℕ → ℕ → ℕ → MessageRow
message_row input id seq now = record {
  id = id;
  conversation_id = input.conversation_id;
  seq = seq;
  sender_id = input.sender_id;
  client_msg_id = input.client_msg_id;
  kind = type_of input;
  body = input.body;
  reply_to_id = input.reply_to_id;
  edited_at = none;
  deleted_at = none;
  created_at = now;
  meta = input.meta;
}

-- The attachment is linked last; a failure rolls everything back.
abbrev pub link_if : List Attachment → Option ℕ → ℕ → List Attachment × Bool
link_if attachments none message = (attachments, true)
link_if attachments (some id) message = link_attachment_to_message attachments id message

-- From the insert on, with the sequence number that the update of the conversation returned.
unfoldable pub insert_message :
    Chat → AppendMessageInput → List Conversation → MessageRow → Appended
insert_message chat input conversations row =
    let linked = link_if chat.attachments input.attachment_id row.id in
    if any (collides row) chat.messages
    then rolled_back unique_violation
    else if not linked.1
    then rolled_back attachment_unavailable
    else committed
        (record {
          conversations = conversations;
          memberships = read_own chat.memberships input.conversation_id input.sender_id row.seq;
          messages = row ∷ chat.messages;
          attachments = linked.0;
        })
        row

abbrev pub append_to :
    Chat → AppendMessageInput → ℕ → ℕ → List Conversation → Option Conversation → Appended
append_to chat input id now conversations none = rolled_back conversation_not_found
append_to chat input id now conversations (some conv) =
    if sender_is_member chat.memberships input.conversation_id input.sender_id
    then insert_message chat input conversations (message_row input id conv.last_seq now)
    else rolled_back sender_not_a_member

-- The transaction from its UPDATE of the conversation on, which takes the row lock: transactions
-- on one conversation run this part one after the other.
unfoldable pub append_locked : Chat → AppendMessageInput → ℕ → ℕ → Appended
append_locked chat input id now =
    append_to chat input id now
      (update (λ c. c.id == input.conversation_id) (bump now) chat.conversations)
      (head? (returning (λ c. c.id == input.conversation_id) (bump now) chat.conversations))

-- What the caller of the transaction sees, and the tables after it.
pub data AppendResult : Type 0 where
  failed : AppendError → AppendResult
  result : (row : MessageRow) → (created : Bool) → AppendResult

abbrev pub same_message : AppendMessageInput → MessageRow → Bool
same_message input row =
    row.conversation_id == input.conversation_id && type_eq row.kind (type_of input)

abbrev pub lookup_key : List MessageRow → Option ℕ → Option ℕ → Option MessageRow
lookup_key messages (some sender) (some key) = find_by_client_msg_id messages sender key
lookup_key messages _ _ = none

abbrev pub commit : Chat → Appended → Chat × AppendResult
commit chat (rolled_back error) = (chat, failed error)
commit chat (committed after row) = (after, result row true)

abbrev pub append_or_existing :
    Chat → AppendMessageInput → ℕ → ℕ → Option MessageRow → Chat × AppendResult
append_or_existing chat input id now none = commit chat (append_locked chat input id now)
append_or_existing chat input id now (some existing) =
    if same_message input existing
    then (chat, result existing false)
    else (chat, failed client_msg_id_conflict)

-- The whole transaction, run on its own; `id` is the `ulid()` it draws.
unfoldable pub append_message_with_status : Chat → AppendMessageInput → ℕ → ℕ → Chat × AppendResult
append_message_with_status chat input id now =
    append_or_existing chat input id now
      (lookup_key chat.messages input.sender_id input.client_msg_id)
