-- ===== src/Messages/Commits.antt =====
-- What a committed append of apps/api/src/db/messages.ts did, and when it commits.
use videochat.Prelude.{
  ℕ, ◌+◌, ◌≡◌, refl, inl, inr, true, false, some, ◌∷◌, any, find, update, select, arith, Bool-cases,
  Option-cases, ◌==◌, head?-map-none, head?-map,
}
use videochat.Tables.{Conversation}
use videochat.Messages.Table.{
  Chat, MessageRow, AppendMessageInput, Appended, rolled_back, committed, append_locked,
  insert_message, bump, sender_is_member, message_row, collides, read_own, link_if, commit,
}

pub record Commits (chat : Chat) (input : AppendMessageInput) (id now : ℕ) (after : Chat)
    (row : MessageRow) : Type 0 where
  pub conv : Conversation
  pub found : find (λ c. c.id == input.conversation_id) chat.conversations ≡ some conv
  pub row_is : row ≡ message_row input id (conv.last_seq + 1) now
  pub is_member : sender_is_member chat.memberships input.conversation_id input.sender_id ≡ true
  pub is_free : any (collides row) chat.messages ≡ false
  pub linked : (link_if chat.attachments input.attachment_id id).1 ≡ true
  pub conversations_is :
      after.conversations
      ≡ update (λ c. c.id == input.conversation_id) (bump now) chat.conversations
  pub memberships_is :
      after.memberships ≡ read_own chat.memberships input.conversation_id input.sender_id row.seq
  pub messages_is : after.messages ≡ row ∷ chat.messages
  pub attachments_is : after.attachments ≡ (link_if chat.attachments input.attachment_id id).0

module _ {ℓ} (P : Chat → Type ℓ) where
  pub commit-keeps :
      (chat : Chat) (a : Appended)
      → ((after : Chat) (row : MessageRow) → a ≡ committed after row → P after)
      → P chat
      → P (commit chat a).0
  commit-keeps chat (rolled_back e) h k = k
  commit-keeps chat (committed after row) h k = h after row refl

module _ (chat : Chat) (input : AppendMessageInput) (id now : ℕ) where
  insert-Commits :
      (conv : Conversation) (after : Chat) (row : MessageRow)
      → find (λ c. c.id == input.conversation_id) chat.conversations ≡ some conv
      → sender_is_member chat.memberships input.conversation_id input.sender_id ≡ true
      → insert_message chat input
          (update (λ c. c.id == input.conversation_id) (bump now) chat.conversations)
          (message_row input id (conv.last_seq + 1) now)
        ≡ committed after row
      → Commits chat input id now after row
  unfolding insert_message message_row
  insert-Commits conv after row found is_member e = ground arith

  pub append_locked-Commits :
      (after : Chat) (row : MessageRow)
      → append_locked chat input id now ≡ committed after row
      → Commits chat input id now after row
  unfolding append_locked
  append_locked-Commits after row e =
      elim (Option-cases (find (λ c. c.id == input.conversation_id) chat.conversations)) [
        | inl f ↦ ground (
          arith,
          head?-map-none (bump now) (select (λ c. c.id == input.conversation_id) chat.conversations)
              f,
        )
        | inr (conv, f) ↦
            elim (Bool-cases
              (sender_is_member chat.memberships input.conversation_id input.sender_id)) [
                | inl m ↦ insert-Commits conv after row f m (
                    rw m at rw
                      (head?-map (bump now)
                        (select (λ c. c.id == input.conversation_id) chat.conversations) conv f)
                      at e)
                | inr m ↦ ground (
                  arith,
                  rw m at rw
                      (head?-map (bump now)
                        (select (λ c. c.id == input.conversation_id) chat.conversations) conv f)
                      at e,
                )
              ]
      ]
