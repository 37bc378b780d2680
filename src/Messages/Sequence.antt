-- ===== src/Messages/Sequence.antt =====
-- The sequence numbers of each conversation, over every run of writes.
use mathlib.Core.Path.{subst}
use videochat.Prelude.{
  ℕ, zero, suc, ◌+◌, ◌≡◌, refl, ◌∙◌, inl, inr, Bool, false, Option, none, some, List, [], ◌∷◌, find,
  update, select, map, arith, Bool-cases, ◌==◌,
}
use videochat.Tables.{Conversation}
use videochat.Messages.Table.{
  Chat, MessageRow, AppendMessageInput, append_locked, bump, message_row,
}
use videochat.Messages.Edits.{
  edit_message_body, set_message_link_preview, soft_delete_message, preview_where, preview_set,
  alive, edit_set, delete_set,
}
use videochat.Messages.Writes.{
  Write, append, edit, preview, delete, mark_read, mark_unread, exec_write, exec_writes,
}
use videochat.Messages.Commits.{Commits, append_locked-Commits, commit-keeps}

-- The sequence numbers of a conversation's messages, the last inserted first.
unfoldable pub seqs : ℕ → List MessageRow → List ℕ
seqs c messages = map (λ r. r.seq) (select (λ r. r.conversation_id == c) messages)

abbrev seq_or_0 : Option Conversation → ℕ
seq_or_0 none = 0
seq_or_0 (some v) = v.last_seq

unfoldable pub last_seq_of : ℕ → List Conversation → ℕ
last_seq_of c conversations = seq_or_0 (find (λ v. v.id == c) conversations)

-- n, n - 1, …, 1.
unfoldable pub countdown : ℕ → List ℕ
countdown zero = []
countdown (suc n) = suc n ∷ countdown n

-- The messages of every conversation are numbered 1, 2, … up to its `last_seq`, in the order in
-- which they were inserted.
pub record IsGapless (chat : Chat) : Type 0 where
  pub numbered : (c : ℕ) → seqs c chat.messages ≡ countdown (last_seq_of c chat.conversations)

update-seqs :
    (c : ℕ) (p : MessageRow → Bool) (f : MessageRow → MessageRow) (messages : List MessageRow)
    → ((r : MessageRow) → (f r).seq ≡ r.seq)
    → ((r : MessageRow) → (f r).conversation_id ≡ r.conversation_id)
    → seqs c (update p f messages) ≡ seqs c messages
unfolding seqs
update-seqs c p f [] s k = refl
update-seqs c p f (r ∷ rs) s k = ground (arith, update-seqs c p f rs s k, s r, k r)

bump-last_seq_of_other :
    (c id now : ℕ) (conversations : List Conversation)
    → (id == c) ≡ false
    → last_seq_of c (update (λ v. v.id == id) (bump now) conversations)
      ≡ last_seq_of c conversations
unfolding last_seq_of
bump-last_seq_of_other c id now [] other = refl
bump-last_seq_of_other c id now (v ∷ vs) other = elim (Bool-cases (v.id == id)) [
  | inl e ↦ rw e (ground (arith, bump-last_seq_of_other c id now vs other))
  | inr e ↦ rw e (ground (arith, bump-last_seq_of_other c id now vs other))
]

bump-last_seq_of :
    (id now : ℕ) (conversations : List Conversation) (conv : Conversation)
    → find (λ v. v.id == id) conversations ≡ some conv
    → last_seq_of id (update (λ v. v.id == id) (bump now) conversations) ≡ conv.last_seq + 1
unfolding last_seq_of
bump-last_seq_of id now [] conv found = cc
bump-last_seq_of id now (v ∷ vs) conv found = elim (Bool-cases (v.id == id)) [
  | inl e ↦ rw e (ground arith)
  | inr e ↦ rw e (ground (arith, bump-last_seq_of id now vs conv))
]

countdown_next : (n : ℕ) → countdown (n + 1) ≡ (n + 1) ∷ countdown n
unfolding countdown
countdown_next n = ground arith

last_seq_of-found :
    (id : ℕ) (conversations : List Conversation) (conv : Conversation)
    → find (λ v. v.id == id) conversations ≡ some conv
    → last_seq_of id conversations ≡ conv.last_seq
unfolding last_seq_of
last_seq_of-found id conversations conv found = rw found refl

module _ (chat : Chat) (g : IsGapless chat) (input : AppendMessageInput) (id now : ℕ)
    (conv : Conversation)
    (found : find (λ v. v.id == input.conversation_id) chat.conversations ≡ some conv) where
  abbrev NumberedAfter : ℕ → Type 0
  NumberedAfter c =
      seqs c (message_row input id (conv.last_seq + 1) now ∷ chat.messages)
      ≡ countdown (
          last_seq_of c (update (λ v. v.id == input.conversation_id) (bump now) chat.conversations))

  append-numbered_same : NumberedAfter input.conversation_id
  unfolding seqs message_row
  append-numbered_same =
      rw (bump-last_seq_of input.conversation_id now chat.conversations conv found) (
        rw (countdown_next conv.last_seq) (
          ground (
            arith,
            g.numbered input.conversation_id,
            last_seq_of-found input.conversation_id chat.conversations conv found,
          )))

  append-numbered_other : (c : ℕ) → (input.conversation_id == c) ≡ false → NumberedAfter c
  unfolding seqs message_row
  append-numbered_other c e =
      rw (bump-last_seq_of_other c input.conversation_id now chat.conversations e)
        (rw e (g.numbered c))

  append-numbered : (c : ℕ) → NumberedAfter c
  append-numbered c = elim (Bool-cases (input.conversation_id == c)) [
    | inl e ↦ subst NumberedAfter (ground arith) append-numbered_same
    | inr e ↦ append-numbered_other c e
  ]

Commits-IsGapless :
    (chat : Chat) (input : AppendMessageInput) (id now : ℕ) (after : Chat) (row : MessageRow)
    → Commits chat input id now after row
    → IsGapless chat
    → IsGapless after
Commits-IsGapless chat input id now after row done g = record {
  numbered = λ c. rw done.messages_is (
      rw done.conversations_is
        (rw done.row_is (append-numbered chat g input id now done.conv done.found c)));
}

update-IsGapless :
    (chat : Chat) (p : MessageRow → Bool) (f : MessageRow → MessageRow)
    → ((r : MessageRow) → (f r).seq ≡ r.seq)
    → ((r : MessageRow) → (f r).conversation_id ≡ r.conversation_id)
    → IsGapless chat
    → IsGapless (record chat { messages = update p f chat.messages })
update-IsGapless chat p f s k g = record {
  numbered = λ c. update-seqs c p f chat.messages s k ∙ g.numbered c;
}

exec_write-IsGapless : (chat : Chat) (w : Write) → IsGapless chat → IsGapless (exec_write chat w)
unfolding exec_write edit_message_body set_message_link_preview soft_delete_message
exec_write-IsGapless chat (append input id now) g =
    commit-keeps IsGapless chat (append_locked chat input id now)
      (λ after row done.
        Commits-IsGapless chat input id now after row
          (append_locked-Commits chat input id now after row done) g)
      g
exec_write-IsGapless chat (edit id body mentions now) g =
    update-IsGapless chat (alive id) (edit_set body mentions now) (λ r. refl) (λ r. refl) g
exec_write-IsGapless chat (preview id (some p) b) g =
    update-IsGapless chat (preview_where id (some p) b) (preview_set (some p)) (λ r. refl)
      (λ r. refl) g
exec_write-IsGapless chat (preview id none b) g =
    update-IsGapless chat (preview_where id none b) (preview_set none) (λ r. refl) (λ r. refl) g
exec_write-IsGapless chat (delete id now) g =
    update-IsGapless chat (alive id) (delete_set now) (λ r. refl) (λ r. refl) g
exec_write-IsGapless chat (mark_read c u s) g = record { numbered = g.numbered }
exec_write-IsGapless chat (mark_unread c u s) g = record { numbered = g.numbered }

-- Whatever writes run, in whatever order, the messages of every conversation stay numbered 1, 2, …
-- up to its `last_seq` in the order of their inserts: no number is skipped, also where an append
-- fails and is rolled back, and none is given twice.
pub exec_writes-IsGapless :
    (chat : Chat) (ws : List Write) → IsGapless chat → IsGapless (exec_writes chat ws)
unfolding exec_writes
exec_writes-IsGapless chat [] g = g
exec_writes-IsGapless chat (w ∷ ws) g =
    exec_writes-IsGapless (exec_write chat w) ws (exec_write-IsGapless chat w g)
