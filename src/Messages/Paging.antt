-- ===== src/Messages/Paging.antt =====
-- `listMessagesPage` and `listMessagesAfter` of apps/api/src/db/messages.ts.
use videochat.Prelude.{
  ℕ, ◌+◌, Bool, true, ◌&&◌, Option, none, some, List, select, take, length, ltb, ◌==◌, order_by,
}
use mathlib.Core.List.{reverse}
use videochat.Messages.Table.{MessageRow}

pub record MessagesPage {ℓ} (A : Type ℓ) : Type ℓ where
  pub rows : List A
  pub has_more : Bool

-- `ORDER BY seq DESC` and `ORDER BY seq ASC`.
abbrev pub newer : MessageRow → MessageRow → Bool
newer a b = ltb b.seq a.seq

abbrev pub older : MessageRow → MessageRow → Bool
older a b = ltb a.seq b.seq

abbrev pub is_before : Option ℕ → MessageRow → Bool
is_before none r = true
is_before (some seq) r = ltb r.seq seq

abbrev pub page_where : ℕ → Option ℕ → MessageRow → Bool
page_where conversation before_seq r = r.conversation_id == conversation && is_before before_seq r

unfoldable pub list_messages_page : List MessageRow → ℕ → Option ℕ → ℕ → MessagesPage MessageRow
list_messages_page messages conversation before_seq limit =
    let rows =
      take (limit + 1) (order_by newer (select (page_where conversation before_seq) messages)) in
    record { rows = reverse (take limit rows); has_more = ltb limit (length rows) }

abbrev pub after_where : ℕ → ℕ → MessageRow → Bool
after_where conversation after_seq r = r.conversation_id == conversation && ltb after_seq r.seq

unfoldable pub list_messages_after : List MessageRow → ℕ → ℕ → ℕ → MessagesPage MessageRow
list_messages_after messages conversation after_seq limit =
    let rows =
      take (limit + 1) (order_by older (select (after_where conversation after_seq) messages)) in
    record { rows = take limit rows; has_more = ltb limit (length rows) }
