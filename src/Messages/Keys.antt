-- ===== src/Messages/Keys.antt =====
-- Idempotent appends: the key (sender, client message id) over every run of writes.
use videochat.Prelude.{
  ℕ, ◌≡◌, refl, Bool, true, false, Option, none, some, List, [], ◌∷◌, any, find, update, set_where,
  arith, Bool-cases, find-update, inl, inr, null_eq, ◌&&◌, ◌≢◌, ◌⊎◌, ◌∙◌,
}
use videochat.Messages.Table.{
  Chat, MessageRow, AppendMessageInput, append_locked, message_row, has_key, collides,
  find_by_client_msg_id, append_message_with_status, result, failed, client_msg_id_conflict,
  type_of, committed, rolled_back, commit, append_or_existing, same_key, Appended, same_message,
  MessageType, type_eq, text, image, file, system, call,
}
use videochat.Messages.Edits.{
  edit_message_body, set_message_link_preview, soft_delete_message, preview_where, preview_set,
  alive, edit_set, delete_set,
}
use videochat.Messages.Writes.{
  Write, append, edit, preview, delete, mark_read, mark_unread, exec_write, exec_writes,
}
use videochat.Messages.Commits.{Commits, append_locked-Commits, commit-keeps}

-- What the statements on one message leave alone.
pub record SameMessage (a b : MessageRow) : Type 0 where
  pub same_id : b.id ≡ a.id
  pub same_conversation : b.conversation_id ≡ a.conversation_id
  pub same_seq : b.seq ≡ a.seq
  pub same_sender : b.sender_id ≡ a.sender_id
  pub same_key : b.client_msg_id ≡ a.client_msg_id
  pub same_kind : b.kind ≡ a.kind

SameMessage-refl : (a : MessageRow) → SameMessage a a
SameMessage-refl a = ground arith

SameMessage-trans : {a b c : MessageRow} → SameMessage a b → SameMessage b c → SameMessage a c
SameMessage-trans h k = ground arith

same_key-has_key :
    (sender key : ℕ) (s k : Option ℕ) (r : MessageRow)
    → (null_eq s sender && null_eq k key) ≡ true
    → same_key s k r ≡ has_key sender key r
same_key-has_key sender key none k r e = cc
same_key-has_key sender key (some s) none r e = ground arith
same_key-has_key sender key (some s) (some k) r e = ground arith

-- The unique index: a row that goes in has a key that is not in the table.
free-has_key :
    (sender key : ℕ) (row found : MessageRow) (messages : List MessageRow)
    → has_key sender key row ≡ true
    → find (has_key sender key) messages ≡ some found
    → any (collides row) messages ≡ true
free-has_key sender key row found [] h e = cc
free-has_key sender key row found (r ∷ rs) h e = ground (
  arith,
  same_key-has_key sender key row.sender_id row.client_msg_id r,
  free-has_key sender key row found rs,
)

-- A message is found under its key.
record Remembers (sender key : ℕ) (first : MessageRow) (chat : Chat) : Type 0 where
  found : MessageRow
  by_key : find_by_client_msg_id chat.messages sender key ≡ some found
  same : SameMessage first found

module _ (sender key : ℕ) (first : MessageRow) where
  update-Remembers :
      (chat : Chat) (p : MessageRow → Bool) (f : MessageRow → MessageRow)
      → ((r : MessageRow) → SameMessage r (f r))
      → ((r : MessageRow) → has_key sender key (f r) ≡ has_key sender key r)
      → Remembers sender key first chat
      → Remembers sender key first (record chat { messages = update p f chat.messages })
  unfolding find_by_client_msg_id
  update-Remembers chat p f keep same_key_ m = record {
    found = set_where p f m.found;
    by_key = rw (find-update (has_key sender key) p f chat.messages same_key_) (rw m.by_key);
    same = elim (Bool-cases (p m.found)) [
      | inl e ↦ rw e (SameMessage-trans m.same (keep m.found))
      | inr e ↦ rw e m.same
    ];
  }

  Commits-Remembers :
      (chat : Chat) (input : AppendMessageInput) (id now : ℕ) (after : Chat) (row : MessageRow)
      → Commits chat input id now after row
      → Remembers sender key first chat
      → Remembers sender key first after
  unfolding find_by_client_msg_id
  Commits-Remembers chat input id now after row done m = record {
    found = m.found;
    by_key =
        rw done.messages_is (
          ground
            (arith, free-has_key sender key row m.found chat.messages, done.is_free, m.by_key));
    same = m.same;
  }

  exec_write-Remembers :
      (chat : Chat) (w : Write)
      → Remembers sender key first chat
      → Remembers sender key first (exec_write chat w)
  unfolding exec_write edit_message_body set_message_link_preview soft_delete_message
  exec_write-Remembers chat (append input id now) m =
      commit-keeps (Remembers sender key first) chat (append_locked chat input id now)
        (λ after row done.
          Commits-Remembers chat input id now after row
            (append_locked-Commits chat input id now after row done) m)
        m
  exec_write-Remembers chat (edit id body mentions now) m =
      update-Remembers chat (alive id) (edit_set body mentions now) (λ r. ground arith) (λ r. refl)
        m
  exec_write-Remembers chat (preview id (some p) b) m =
      update-Remembers chat (preview_where id (some p) b) (preview_set (some p)) (λ r. ground arith)
        (λ r. refl) m
  exec_write-Remembers chat (preview id none b) m =
      update-Remembers chat (preview_where id none b) (preview_set none) (λ r. ground arith)
        (λ r. refl) m
  exec_write-Remembers chat (delete id now) m =
      update-Remembers chat (alive id) (delete_set now) (λ r. ground arith) (λ r. refl) m
  exec_write-Remembers chat (mark_read c u s) m = record {
    found = m.found;
    by_key = m.by_key;
    same = m.same;
  }
  exec_write-Remembers chat (mark_unread c u s) m = record {
    found = m.found;
    by_key = m.by_key;
    same = m.same;
  }

  exec_writes-Remembers :
      (chat : Chat) (ws : List Write)
      → Remembers sender key first chat
      → Remembers sender key first (exec_writes chat ws)
  unfolding exec_writes
  exec_writes-Remembers chat [] m = m
  exec_writes-Remembers chat (w ∷ ws) m =
      exec_writes-Remembers (exec_write chat w) ws (exec_write-Remembers chat w m)

commit-committed :
    (chat after : Chat) (row : MessageRow) (a : Appended)
    → commit chat a ≡ (after, result row true)
    → a ≡ committed after row
commit-committed chat after row (rolled_back e) h = ground arith
commit-committed chat after row (committed c r) h = ground arith

created-committed :
    (chat : Chat) (input : AppendMessageInput) (id now : ℕ) (after : Chat) (row : MessageRow)
    (o : Option MessageRow)
    → append_or_existing chat input id now o ≡ (after, result row true)
    → append_locked chat input id now ≡ committed after row
created-committed chat input id now after row none h =
    commit-committed chat after row (append_locked chat input id now) h
created-committed chat input id now after row (some existing) h =
    elim (Bool-cases (same_message input existing)) [
      | inl e ↦ ground (arith, rw e at h)
      | inr e ↦ ground (arith, rw e at h)
    ]

type_eq_refl : (a : MessageType) → type_eq a a ≡ true
type_eq_refl text = refl
type_eq_refl image = refl
type_eq_refl file = refl
type_eq_refl system = refl
type_eq_refl call = refl

type_eq_sound : (a b : MessageType) → type_eq a b ≡ true → a ≡ b
type_eq_sound text b e = ground arith
type_eq_sound image b e = ground arith
type_eq_sound file b e = ground arith
type_eq_sound system b e = ground arith
type_eq_sound call b e = ground arith

-- A repeat of the append whose key finds a message.
found-append :
    (chat : Chat) (again : AppendMessageInput) (sender key id now : ℕ) (found : MessageRow)
    → again.sender_id ≡ some sender
    → again.client_msg_id ≡ some key
    → find_by_client_msg_id chat.messages sender key ≡ some found
    → append_message_with_status chat again id now
      ≡ append_or_existing chat again id now (some found)
unfolding append_message_with_status
found-append chat again sender key id now found by keyed e = rw by (rw keyed (rw e refl))

-- After a transaction that created a message, its key finds it.
module _ (chat : Chat) (input : AppendMessageInput) (sender key id now : ℕ) (after : Chat)
    (row : MessageRow) (by : input.sender_id ≡ some sender) (keyed : input.client_msg_id ≡ some key)
    (done : append_message_with_status chat input id now ≡ (after, result row true)) where
  created-Commits : Commits chat input id now after row
  unfolding append_message_with_status
  created-Commits =
      append_locked-Commits chat input id now after row
        (created-committed chat input id now after row _ done)

  created-Remembers : Remembers sender key row after
  unfolding find_by_client_msg_id message_row
  created-Remembers = record {
    found = row;
    by_key = rw created-Commits.messages_is (ground (arith, created-Commits.row_is));
    same = SameMessage-refl row;
  }

  module _ (ws : List Write) (again : AppendMessageInput) (by_again : again.sender_id ≡ some sender)
      (keyed_again : again.client_msg_id ≡ some key) (id' now' : ℕ) where
    -- Once a send has created a message, whatever writes run after it, repeating it (same sender,
    -- key, conversation and type; the text may differ) changes nothing and returns that message
    -- as an existing one.
    pub retry_returns_first :
        again.conversation_id ≡ input.conversation_id
        → type_of again ≡ type_of input
        → (found : MessageRow) × (append_message_with_status (exec_writes after ws) again id' now'
            ≡ (exec_writes after ws, result found false))
          × SameMessage row found
    unfolding append_message_with_status message_row
    retry_returns_first c k =
        let m = exec_writes-Remembers sender key row after ws created-Remembers in
        let hit : same_message again m.found ≡ true =
          ground (arith, created-Commits.row_is, m.same, type_eq_refl (type_of again)) in
        (
          m.found,
          found-append _ again sender key id' now' m.found by_again keyed_again m.by_key
              ∙ rw hit refl,
          m.same,
        )

    -- Using the key for another conversation or another type is refused, and changes nothing.
    pub reuse_conflicts :
        (again.conversation_id ≢ input.conversation_id) ⊎ (type_of again ≢ type_of input)
        → append_message_with_status (exec_writes after ws) again id' now'
          ≡ (exec_writes after ws, failed client_msg_id_conflict)
    unfolding append_message_with_status message_row
    reuse_conflicts differs =
        let m = exec_writes-Remembers sender key row after ws created-Remembers in
        let miss : same_message again m.found ≡ false =
          ground
            (arith, created-Commits.row_is, m.same, type_eq_sound m.found.kind (type_of again)) in
        found-append _ again sender key id' now' m.found by_again keyed_again m.by_key
        ∙ rw miss refl
