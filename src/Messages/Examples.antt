-- ===== src/Messages/Examples.antt =====
-- Messages at concrete inputs: anna (1) and ben (2) in conversation 10.
use videochat.Prelude.{
  head?, take, ◌+◌, ◌++◌, ltb, length, ◌≤◌, ℕ, ◌≡◌, refl, true, false, none, some, List, [], ◌∷◌,
  arith, inl,
}
use videochat.Tables.{Conversation, Membership, direct, member, is_conversation_member}
use videochat.Messages.Table.{
  Chat, MessageRow, AppendMessageInput, append_message_with_status, result, failed,
  client_msg_id_conflict, message_row, append_locked, find_by_client_msg_id, insert_message,
}
use videochat.Messages.Writes.{
  Write, append, edit, preview, delete, mark_read, exec_write, exec_writes,
}
use videochat.Messages.Edits.{meta_of, soft_delete_message, edit_message_body}
use videochat.Messages.Sequence.{IsGapless, exec_writes-IsGapless, seqs, countdown, last_seq_of}
use videochat.Messages.Keys.{SameMessage, retry_returns_first, reuse_conflicts}
use videochat.Messages.ById.{find_message}
use videochat.Messages.Reactions.{ReactionRow, count_distinct, toggle_reaction, added, removed}
use videochat.Messages.Toggling.{Toggle, toggle_all, toggle_all-count, toggle_reaction-twice}
use mathlib.Core.List.{reverse}
use videochat.Messages.Paging.{list_messages_page}
use videochat.Messages.History.{history, pages-join}
use videochat.Messages.Tombstones.{deleted_for_good, dismissed_for_good}

abbrev seat : ℕ → Membership
seat user = record {
  conversation_id = 10;
  user_id = user;
  role = member;
  last_read_seq = 0;
  muted_until = none;
  joined_at = 0;
  left_at = none;
}

abbrev room : ℕ → Conversation
room id = record { id = id; kind = direct; last_seq = 0; last_message_at = none }

abbrev quiet : Chat
quiet = record {
  conversations = room 10 ∷ room 20 ∷ [];
  memberships = seat 1 ∷ seat 2 ∷ [];
  messages = [];
  attachments = [];
}

abbrev hello : ℕ → AppendMessageInput
hello conversation = record {
  conversation_id = conversation;
  sender_id = some 1;
  body = some 5;
  kind = none;
  client_msg_id = some 77;
  reply_to_id = none;
  meta = none;
  attachment_id = none;
}

-- A message of ben's, an edit, a stranger's message, which fails, and a delete.
abbrev writes : List Write
writes =
    append (record (hello 10) { sender_id = some 2 }) 101 2000
    ∷ edit 100 6 [] 2001
    ∷ append (record (hello 10) { sender_id = some 3 }) 102 2002
    ∷ append (record (hello 10) { client_msg_id = none }) 103 2003
    ∷ mark_read 10 2 1
    ∷ delete 101 2004
    ∷ []

quiet-IsGapless : IsGapless quiet
unfolding seqs countdown last_seq_of
quiet-IsGapless = record { numbered = λ c. ground arith }

IsGapless_example : IsGapless (exec_writes quiet writes)
IsGapless_example = exec_writes-IsGapless quiet writes quiet-IsGapless

-- The failed append takes no number.
writes-seqs : seqs 10 (exec_writes quiet writes).messages ≡ 2 ∷ 1 ∷ []
unfolding exec_writes exec_write append_locked seqs soft_delete_message is_conversation_member
    insert_message edit_message_body message_row
writes-seqs = refl

abbrev sent : Chat
sent = exec_write quiet (append (hello 10) 100 1000)

abbrev sent_row : MessageRow
sent_row = message_row (hello 10) 100 1 1000

sent-done : append_message_with_status quiet (hello 10) 100 1000 ≡ (sent, result sent_row true)
unfolding append_message_with_status append_locked exec_write find_by_client_msg_id
    is_conversation_member insert_message
sent-done = refl

retry_example :
    (found : MessageRow) × (append_message_with_status (exec_writes sent writes) (hello 10) 104 3000
      ≡ (exec_writes sent writes, result found false))
    × SameMessage sent_row found
retry_example =
    retry_returns_first quiet (hello 10) 1 77 100 1000 sent sent_row refl refl sent-done writes
      (hello 10) refl refl 104 3000 refl refl

reuse_example :
    append_message_with_status (exec_writes sent writes) (hello 20) 104 3000
    ≡ (exec_writes sent writes, failed client_msg_id_conflict)
reuse_example =
    reuse_conflicts quiet (hello 10) 1 77 100 1000 sent sent_row refl refl sent-done writes
      (hello 20) refl refl 104 3000 (inl (λ e. omega (arith, e)))

sent-found : find_message sent.messages 100 ≡ some sent_row
unfolding find_message exec_write append_locked is_conversation_member insert_message message_row
sent-found = refl

deleted_example :
    find_message (exec_writes (exec_write sent (delete 100 1500)) writes).messages 100
    ≡ some (record sent_row { deleted_at = some 1500; body = none; meta = none })
unfolding message_row
deleted_example = deleted_for_good sent 100 1500 sent_row writes sent-found refl

dismissed_example :
    (s : MessageRow) × (find_message
        (exec_writes (exec_write sent (preview 100 none none)) writes).messages
        100
      ≡ some s)
    × ((meta_of s.meta).link_preview ≡ none)
unfolding message_row
dismissed_example = dismissed_for_good sent 100 1500 sent_row writes sent-found refl

abbrev thumb : ReactionRow
thumb = record { message_id = 100; user_id = 2; emoji = 9; created_at = 1 }

abbrev toggles : List Toggle
toggles =
    record {
      messages = sent.messages;
      conversation = 10;
      user = 1;
      message = 100;
      emoji = 8;
      now = 5;
    }
    ∷ record {
      messages = sent.messages;
      conversation = 10;
      user = 2;
      message = 100;
      emoji = 9;
      now = 6;
    }
    ∷ []

toggle_all_example : count_distinct 100 (toggle_all (thumb ∷ []) toggles) ≤ 20
toggle_all_example = toggle_all-count (thumb ∷ []) toggles 100 (omega arith)

first-added : (toggle_reaction (thumb ∷ []) 100 1 9 20 5).1 ≡ added
unfolding toggle_reaction
first-added = refl

twice_example :
    toggle_reaction (toggle_reaction (thumb ∷ []) 100 1 9 20 5).0 100 1 9 20 6
    ≡ (thumb ∷ [], removed)
twice_example = toggle_reaction-twice (thumb ∷ []) 100 1 9 20 5 6 first-added

abbrev busy : Chat
busy = exec_writes quiet writes

abbrev newest : MessageRow
newest = message_row (record (hello 10) { client_msg_id = none }) 103 2 2003

busy-page : head? (list_messages_page busy.messages 10 none 1).rows ≡ some newest
unfolding list_messages_page exec_writes exec_write append_locked soft_delete_message
    is_conversation_member insert_message edit_message_body message_row
busy-page = refl

pages_example :
    ((list_messages_page busy.messages 10 (some 2) 1).rows
        ++ (list_messages_page busy.messages 10 none 1).rows
      ≡ reverse (take (1 + 1) (history busy.messages 10 none)))
    × ((list_messages_page busy.messages 10 none 1).has_more
        ≡ ltb 1 (length (history busy.messages 10 none)))
unfolding message_row
pages_example =
    pages-join busy 10 1 none newest (exec_writes-IsGapless quiet writes quiet-IsGapless) busy-page
