-- ===== src/Client/CatchUp.antt =====
-- The gap sync loop of apps/web/src/features/chat/gapSync.ts against `listMessagesAfter` of
-- apps/api/src/db/messages.ts.
use mathlib.Core.Path.{subst}
use videochat.Prelude.{
  ℕ, zero, suc, ◌+◌, ◌*◌, ◌≤◌, ◌≡◌, refl, sym, ◌∙◌, ap, inl, inr, true, Option, some, List, [],
  ◌++◌, select, take, drop, last?, length, ltb, arith, Bool-cases, ◌==◌, order_by, IsDistinct,
  IsOrder, order_by-IsSorted, select-order_by, rest-after_page, IsDistinct-select, select-select,
  All-select_self, All-order_by, All-last_take, last?-take, take-take_suc, take-append-drop,
  take-long, length-take,
}
use videochat.Messages.{Chat, MessageRow}
use videochat.Messages.Sequence.{IsGapless, last_seq_of, seqs}
use videochat.Messages.Paging.{list_messages_after, after_where, older, MessagesPage}
use videochat.Messages.History.{countdown-IsDistinct}
use videochat.Client.GapSync.{get_last_seen_seq, Bookmarks, collect_pages, next_after, sync_one}

older-IsOrder : IsOrder older
older-IsOrder = record { trans = λ a b c h k. ground arith; irrefl = λ a. ground arith }

-- The messages of a conversation after a sequence number, oldest first.
unfoldable pub missed : List MessageRow → ℕ → ℕ → List MessageRow
missed messages c after_seq = order_by older (select (after_where c after_seq) messages)

module _ (messages : List MessageRow) (c : ℕ)
    (distinct : IsDistinct older (select (λ r. r.conversation_id == c) messages)) where
  select-IsDistinct : (after_seq : ℕ) → IsDistinct older (select (after_where c after_seq) messages)
  select-IsDistinct after_seq =
      subst (λ (xs : List MessageRow). IsDistinct older xs)
        (select-select (λ r. ltb after_seq r.seq) (λ r. r.conversation_id == c)
          (after_where c after_seq) messages (λ r. refl))
        (IsDistinct-select older (λ r. ltb after_seq r.seq) _ distinct)

  missed-next :
      (limit after_seq : ℕ) (l : MessageRow)
      → last? (take limit (missed messages c after_seq)) ≡ some l
      → missed messages c l.seq ≡ drop limit (missed messages c after_seq)
  unfolding missed
  missed-next limit after_seq l e =
      let later : after_where c after_seq l ≡ true =
        All-last_take (λ r. after_where c after_seq r ≡ true) limit (missed messages c after_seq) l
          e
          (All-order_by (λ r. after_where c after_seq r ≡ true) older
            (select (after_where c after_seq) messages)
            (All-select_self (after_where c after_seq) messages)) in
      let same =
        select-select (older l) (after_where c after_seq) (after_where c l.seq) messages
          (λ r. ground (arith, later)) in
      sym (ap (λ (t : List MessageRow). order_by older t) same)
      ∙ sym (
          select-order_by older older-IsOrder (older l) (select (after_where c after_seq) messages)
            (select-IsDistinct after_seq))
      ∙ rest-after_page older older-IsOrder limit (missed messages c after_seq) l
          (order_by-IsSorted older older-IsOrder _ (select-IsDistinct after_seq)) e

  -- One page of the server.
  page-rows :
      (limit after_seq : ℕ)
      → (list_messages_after messages c after_seq limit).rows
        ≡ take limit (missed messages c after_seq)
  unfolding list_messages_after missed
  page-rows limit after_seq = take-take_suc limit _

  page-has_more :
      (limit after_seq : ℕ)
      → (list_messages_after messages c after_seq limit).has_more
        ≡ ltb limit (length (missed messages c after_seq))
  unfolding list_messages_after missed
  page-has_more limit after_seq =
      ground (
        arith,
        length-take (limit + 1) (order_by older (select (after_where c after_seq) messages)),
      )

  module _ (limit : ℕ) (limit_positive : 1 ≤ limit) where
    abbrev serve_after : ℕ → Option (MessagesPage MessageRow)
    serve_after after_seq = some (list_messages_after messages c after_seq limit)

    collect_pages-serves :
        (pages after_seq : ℕ) (marks : Bookmarks)
        → (collect_pages (λ r. r.seq) pages serve_after c after_seq marks).0
          ≡ take (pages * limit) (missed messages c after_seq)
    unfolding collect_pages
    collect_pages-serves zero after_seq marks =
        let none_ : 0 ≡ 0 * limit = omega arith in
        subst (λ k. [] ≡ take k (missed messages c after_seq)) none_ refl
    collect_pages-serves (suc n) after_seq marks =
        let all_ = missed messages c after_seq in
        let steps : limit + n * limit ≡ suc n * limit = omega arith in
        elim (Bool-cases (ltb limit (length all_))) [
          | inl more ↦
              let (l, last_) = last?-take limit all_ limit_positive (ground (arith, more)) in
              rw (page-has_more limit after_seq) (
                rw more (
                  rw (page-rows limit after_seq) (
                    ap (λ (t : List MessageRow). take limit all_ ++ t)
                      (collect_pages-serves n _ _
                        ∙ ap
                            (λ o. take (n * limit) (
                              missed messages c
                                (next_after (λ (r : MessageRow). r.seq) after_seq o)))
                            last_
                        ∙ ap (λ (t : List MessageRow). take (n * limit) t)
                            (missed-next limit after_seq l last_))
                    ∙ take-append-drop limit (n * limit) all_
                    ∙ ap (λ k. take k all_) steps)))
          | inr done ↦ rw (page-has_more limit after_seq) (
              rw done (
                rw (page-rows limit after_seq) (
                  take-long limit all_ (ground (arith, done))
                  ∙ sym (take-long (suc n * limit) all_ (ground (arith, done, steps))))))
        ]

-- What a reconnect hands to the screen is what the conversation received after the bookmark, all
-- of it in order with nothing skipped or repeated, up to 25 pages of the server's page size.
pub sync_one_complete :
    (chat : Chat) (c limit after_seq : ℕ) (marks : Bookmarks)
    → IsGapless chat
    → 1 ≤ limit
    → get_last_seen_seq marks c ≡ some after_seq
    → (sync_one (λ r. r.seq) marks (λ a. some (list_messages_after chat.messages c a limit)) c).0
      ≡ take (25 * limit) (missed chat.messages c after_seq)
unfolding sync_one seqs
sync_one_complete chat c limit after_seq marks g positive seen = rw seen (
    collect_pages-serves chat.messages c
      (countdown-IsDistinct (last_seq_of c chat.conversations) _ (g.numbered c)).1 limit positive 25
      after_seq marks)
