-- ===== src/Client/GapSync.antt =====
-- Catching up after a reconnect: apps/web/src/features/chat/gapSync.ts, with the bookmarks of
-- apps/web/src/lib/lastSeenSeq.ts. The loop reads nothing of a message but its `seq`, and is
-- written for any type of messages that has one. `fetch_after` is the server's answer, or `none`
-- where the request fails.
use videochat.Prelude.{
  ℕ, zero, suc, Bool, false, Option, none, some, List, [], ◌∷◌, ◌++◌, any, last?, leb, ◌==◌,
  if◌then◌else◌,
}
use videochat.Messages.Paging.{MessagesPage}

-- The two kinds of entries of `localStorage`: a bookmark per conversation and the index of the
-- conversations that have one.
pub record Bookmarks : Type 0 where
  pub last_seen : ℕ → Option ℕ
  pub index : List ℕ

unfoldable pub get_last_seen_seq : Bookmarks → ℕ → Option ℕ
get_last_seen_seq marks conversation = marks.last_seen conversation

unfoldable pub tracked_conversation_ids : Bookmarks → List ℕ
tracked_conversation_ids marks = marks.index

-- `current !== null && seq <= current`.
abbrev pub is_known : Option ℕ → ℕ → Bool
is_known none seq = false
is_known (some current) seq = leb seq current

unfoldable pub record_seen_seq : Bookmarks → ℕ → ℕ → Bookmarks
unfolding get_last_seen_seq tracked_conversation_ids
record_seen_seq marks conversation seq =
    if is_known (get_last_seen_seq marks conversation) seq then marks else record {
      last_seen = λ c. if c == conversation then some seq else marks.last_seen c;
      index =
          if any (λ id. id == conversation) (tracked_conversation_ids marks)
          then marks.index
          else marks.index ++ conversation ∷ [];
    }

-- `MAX_PAGES_PER_CONVERSATION`.
abbrev pub max_pages_per_conversation : ℕ
max_pages_per_conversation = 25

module _ {ℓ} {A : Type ℓ} (seq_of : A → ℕ) where
  -- The cursor and the bookmarks after a page with this last message.
  abbrev pub next_after : ℕ → Option A → ℕ
  next_after after_seq none = after_seq
  next_after after_seq (some l) = seq_of l

  abbrev pub record_last : Bookmarks → ℕ → Option A → Bookmarks
  record_last marks conversation none = marks
  record_last marks conversation (some l) = record_seen_seq marks conversation (seq_of l)

  -- The `for` loop: the first argument counts the pages that are left.
  unfoldable pub collect_pages :
      ℕ → (ℕ → Option (MessagesPage A)) → ℕ → ℕ → Bookmarks → List A × Bookmarks
  collect_pages zero fetch conversation after_seq marks = ([], marks)
  collect_pages (suc pages) fetch conversation after_seq marks = elim (fetch after_seq) [
    | none ↦ ([], marks)
    | some page ↦
        let marks' = record_last marks conversation (last? page.rows) in
        let rest =
          collect_pages pages fetch conversation (next_after after_seq (last? page.rows)) marks' in
        if page.has_more then (page.rows ++ rest.0, rest.1) else (page.rows, marks')
  ]

  -- From the bookmark on; a conversation without one was never opened.
  abbrev pub sync_from :
      Bookmarks → (ℕ → Option (MessagesPage A)) → ℕ → Option ℕ → List A × Bookmarks
  sync_from marks fetch conversation none = ([], marks)
  sync_from marks fetch conversation (some after_seq) =
      collect_pages max_pages_per_conversation fetch conversation after_seq marks

  -- What is handed to `onCaughtUp`, which is called only where it is not empty.
  unfoldable pub sync_one : Bookmarks → (ℕ → Option (MessagesPage A)) → ℕ → List A × Bookmarks
  sync_one marks fetch conversation =
      sync_from marks fetch conversation (get_last_seen_seq marks conversation)
