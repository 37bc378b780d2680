-- ===== src/Messages/ById.antt =====
-- One message, looked up by its id, over every run of writes.
use videochat.Prelude.{
  ℕ, ◌≡◌, refl, Bool, true, Option, none, some, List, [], ◌∷◌, any, find, update, set_where, arith,
  Bool-cases, find-update, inl, inr, ◌==◌,
}
use videochat.Messages.Table.{Chat, MessageRow, AppendMessageInput, append_locked, collides}
use videochat.Messages.Edits.{
  edit_message_body, set_message_link_preview, soft_delete_message, preview_where, preview_set,
  alive, edit_set, delete_set,
}
use videochat.Messages.Writes.{
  Write, append, edit, preview, delete, mark_read, mark_unread, exec_write, exec_writes,
}
use videochat.Messages.Commits.{Commits, append_locked-Commits, commit-keeps}

-- `findMessage` of apps/api/src/db/messages.ts.
unfoldable pub find_message : List MessageRow → ℕ → Option MessageRow
find_message messages id = find (λ r. r.id == id) messages

-- A predicate of a message that no statement on one message breaks.
pub record IsStable {ℓ} (P : MessageRow → Type ℓ) : Type ℓ where
  pub edited :
      (id body now : ℕ) (mentions : List ℕ) (r : MessageRow)
      → alive id r ≡ true
      → P r
      → P (edit_set body mentions now r)
  pub previewed :
      (id : ℕ) (p b : Option ℕ) (r : MessageRow)
      → preview_where id p b r ≡ true
      → P r
      → P (preview_set p r)
  pub deleted : (id now : ℕ) (r : MessageRow) → alive id r ≡ true → P r → P (delete_set now r)

pub record Holds {ℓ} (P : MessageRow → Type ℓ) (id : ℕ) (chat : Chat) : Type ℓ where
  pub found : MessageRow
  pub by_id : find_message chat.messages id ≡ some found
  pub holds : P found

free-id :
    (id : ℕ) (row found : MessageRow) (messages : List MessageRow)
    → (row.id == id) ≡ true
    → find (λ r. r.id == id) messages ≡ some found
    → any (collides row) messages ≡ true
free-id id row found [] h e = cc
free-id id row found (r ∷ rs) h e = ground (arith, free-id id row found rs)

module _ {ℓ} (P : MessageRow → Type ℓ) (stable : IsStable P) (id : ℕ) where
  update-Holds :
      (chat : Chat) (p : MessageRow → Bool) (f : MessageRow → MessageRow)
      → ((r : MessageRow) → (f r).id ≡ r.id)
      → ((r : MessageRow) → p r ≡ true → P r → P (f r))
      → Holds P id chat
      → Holds P id (record chat { messages = update p f chat.messages })
  unfolding find_message
  update-Holds chat p f same keep m = record {
    found = set_where p f m.found;
    by_id = rw (find-update (λ r. r.id == id) p f chat.messages (λ r. rw (same r))) (rw m.by_id);
    holds = elim (Bool-cases (p m.found)) [
      | inl e ↦ rw e (keep m.found e m.holds)
      | inr e ↦ rw e m.holds
    ];
  }

  Commits-Holds :
      (chat : Chat) (input : AppendMessageInput) (new now : ℕ) (after : Chat) (row : MessageRow)
      → Commits chat input new now after row
      → Holds P id chat
      → Holds P id after
  unfolding find_message
  Commits-Holds chat input new now after row done m = record {
    found = m.found;
    by_id =
        rw done.messages_is
          (ground (arith, free-id id row m.found chat.messages, done.is_free, m.by_id));
    holds = m.holds;
  }

  exec_write-Holds : (chat : Chat) (w : Write) → Holds P id chat → Holds P id (exec_write chat w)
  unfolding exec_write edit_message_body set_message_link_preview soft_delete_message
  exec_write-Holds chat (append input new now) m =
      commit-keeps (Holds P id) chat (append_locked chat input new now)
        (λ after row done.
          Commits-Holds chat input new now after row
            (append_locked-Commits chat input new now after row done) m)
        m
  exec_write-Holds chat (edit k body mentions now) m =
      update-Holds chat (alive k) (edit_set body mentions now) (λ r. refl)
        (λ r e h. stable.edited k body now mentions r e h) m
  exec_write-Holds chat (preview k (some p) b) m =
      update-Holds chat (preview_where k (some p) b) (preview_set (some p)) (λ r. refl)
        (λ r e h. stable.previewed k (some p) b r e h) m
  exec_write-Holds chat (preview k none b) m =
      update-Holds chat (preview_where k none b) (preview_set none) (λ r. refl)
        (λ r e h. stable.previewed k none b r e h) m
  exec_write-Holds chat (delete k now) m =
      update-Holds chat (alive k) (delete_set now) (λ r. refl) (λ r e h. stable.deleted k now r e h)
        m
  exec_write-Holds chat (mark_read c u s) m = record {
    found = m.found;
    by_id = m.by_id;
    holds = m.holds;
  }
  exec_write-Holds chat (mark_unread c u s) m = record {
    found = m.found;
    by_id = m.by_id;
    holds = m.holds;
  }

  pub exec_writes-Holds :
      (chat : Chat) (ws : List Write) → Holds P id chat → Holds P id (exec_writes chat ws)
  unfolding exec_writes
  exec_writes-Holds chat [] m = m
  exec_writes-Holds chat (w ∷ ws) m =
      exec_writes-Holds (exec_write chat w) ws (exec_write-Holds chat w m)
