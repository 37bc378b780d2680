-- ===== src/Client/Examples.antt =====
-- Catching up at a concrete input: three messages of conversation 10, of which one was seen.
use videochat.Prelude.{
  List, true, All, any, ltb, ◌==◌, ◌||◌, ℕ, ◌≡◌, refl, none, some, [], ◌∷◌, arith, take, ◌*◌,
}
use videochat.Tables.{group}
use videochat.Messages.{Chat, MessageRow, text}
use videochat.Messages.Sequence.{IsGapless, seqs, countdown, last_seq_of}
use videochat.Messages.Paging.{list_messages_after}
use videochat.Client.GapSync.{Bookmarks, sync_one, get_last_seen_seq}
use videochat.Client.MessagesState.{MessagesState, Message, merge_messages, merge_latest_page}
use videochat.Client.Merging.{merge_messages-any, merge_latest_page-All}
use videochat.Client.ReadReceipts.{
  Sending, ThrottleEvent, requested, timer_ran, run_events, run_event, request, flush,
}
use videochat.Client.Throttled.{IsThrottled, run_events-IsThrottled}
use videochat.Client.CatchUp.{missed, sync_one_complete}

abbrev row : ℕ → MessageRow
row seq = record {
  id = seq;
  conversation_id = 10;
  seq = seq;
  sender_id = none;
  client_msg_id = none;
  kind = text;
  body = some 5;
  reply_to_id = none;
  edited_at = none;
  deleted_at = none;
  created_at = seq;
  meta = none;
}

abbrev chat : Chat
chat = record {
  conversations = record { id = 10; kind = group; last_seq = 3; last_message_at = some 3 } ∷ [];
  memberships = [];
  messages = row 3 ∷ row 2 ∷ row 1 ∷ [];
  attachments = [];
}

abbrev marks : Bookmarks
marks = record { last_seen = λ c. some 1; index = 10 ∷ [] }

chat-IsGapless : IsGapless chat
unfolding seqs countdown last_seq_of
chat-IsGapless = record { numbered = λ c. ground arith }

sync_one_example :
    (sync_one (λ r. r.seq) marks (λ a. some (list_messages_after chat.messages 10 a 1)) 10).0
    ≡ take (25 * 1) (missed chat.messages 10 1)
unfolding get_last_seen_seq
sync_one_example = sync_one_complete chat 10 1 1 marks chat-IsGapless (omega arith) refl

-- Message 51 came in live while the page with 50 was on its way.
abbrev loaded : MessagesState
loaded = record {
  messages =
      record { id = 50; seq = 50; content = 1; reactions = none }
      ∷ record { id = 51; seq = 51; content = 2; reactions = none }
      ∷ [];
  has_more = true;
}

abbrev fifty : Message
fifty = record { id = 50; seq = 50; content = 1; reactions = none }

merge_latest_page_example :
    All
      (λ m. (ltb m.seq 50 || any (λ x. x.id == m.id) (fifty ∷ [])) ≡ true)
      (merge_latest_page (some loaded) (record { rows = fifty ∷ []; has_more = true })).messages
merge_latest_page_example = merge_latest_page-All (some loaded) fifty [] true

page-drops :
    (merge_latest_page (some loaded) (record { rows = fifty ∷ []; has_more = true })).messages
    ≡ fifty ∷ []
unfolding merge_latest_page merge_messages
page-drops = refl

merge_messages_example :
    any (λ x. x.id == 51) (merge_messages (some loaded) (fifty ∷ [])).messages
    ≡ (any (λ x. x.id == 51) loaded.messages || any (λ x. x.id == 51) (fifty ∷ []))
merge_messages_example = merge_messages-any (some loaded) (fifty ∷ []) 51

abbrev fresh : Sending
fresh = record {
  throttle = record { sent_seq = none; last_sent_at = none; pending_seq = none; timer = none };
  log = [];
}

fresh-IsThrottled : IsThrottled 1000 fresh
fresh-IsThrottled = record {
  spaced = tt;
  remembers = (refl, refl);
  above = λ p e. cc;
  later = λ due last e k. cc;
}

abbrev reading : List ThrottleEvent
reading = requested 5 10 ∷ timer_ran 10 ∷ requested 6 20 ∷ requested 7 30 ∷ timer_ran 1010 ∷ []

IsThrottled_example : IsThrottled 1000 (run_events 1000 fresh reading)
IsThrottled_example = run_events-IsThrottled 1000 fresh reading fresh-IsThrottled

reading-log : (run_events 1000 fresh reading).log ≡ (7, 1010) ∷ (5, 10) ∷ []
unfolding run_events run_event request flush
reading-log = refl
