-- ===== src/Messages/History.antt =====
-- Scrolling back through the history: successive pages of `listMessagesPage`
-- (apps/api/src/db/messages.ts).
use mathlib.Core.List.{reverse, reverse_aux, reverse-append}
use mathlib.Core.Path.{subst}
use videochat.Prelude.{
  All, ◌||◌, map, leb, suc, zero, All-imp, [], inl, inr, Option-cases, ◌&&◌, ℕ, ◌+◌, ◌≡◌, refl, sym,
  ◌∙◌, ap, true, Option, none, some, List, [], ◌∷◌, ◌++◌, select, take, drop, last?, head?, length,
  ltb, arith, order_by, IsDistinct, IsOrder, order_by-IsSorted, select-order_by, rest-after_page,
  IsDistinct-select, select-select, All-select_self, All-order_by, All-last_take, take-take_suc,
  take-append-drop, length-take, ◌==◌,
}
use videochat.Messages.Table.{Chat, MessageRow}
use videochat.Messages.Sequence.{IsGapless, seqs, countdown, last_seq_of}
use videochat.Messages.Paging.{list_messages_page, page_where, is_before, newer, older}

newer-IsOrder : IsOrder newer
newer-IsOrder = record { trans = λ a b c h k. ground arith; irrefl = λ a. ground arith }

-- Messages that are numbered downwards without a gap have different numbers.
pub countdown-IsDistinct :
    (n : ℕ) (xs : List MessageRow)
    → map (λ r. r.seq) xs ≡ countdown n
    → All (λ r. leb r.seq n ≡ true) xs × IsDistinct older xs
unfolding countdown
countdown-IsDistinct n [] e = (tt, tt)
countdown-IsDistinct zero (x ∷ xs) e = cc
countdown-IsDistinct (suc n) (x ∷ xs) e =
    let top : x.seq ≡ suc n = ground (arith, e) in
    let below : map (λ r. r.seq) xs ≡ countdown n = ground (arith, e) in
    let (bound, distinct) = countdown-IsDistinct n xs below in
    (
      (
        ground (arith, top),
        All-imp (λ r. leb r.seq n ≡ true) (λ r. leb r.seq (suc n) ≡ true) xs (λ r h. ground arith)
            bound,
      ),
      (
        All-imp (λ r. leb r.seq n ≡ true) (λ y. (older x y || older y x) ≡ true) xs
            (λ r h. ground (arith, top)) bound,
        distinct,
      ),
    )

IsDistinct-flip : (xs : List MessageRow) → IsDistinct older xs → IsDistinct newer xs
IsDistinct-flip [] d = tt
IsDistinct-flip (x ∷ xs) d = (
  All-imp (λ y. (older x y || older y x) ≡ true) (λ y. (newer x y || newer y x) ≡ true) xs
      (λ y h. ground (arith, h)) d.0,
  IsDistinct-flip xs d.1,
)

-- A conversation's messages before a number (all of them for `none`), newest first.
unfoldable pub history : List MessageRow → ℕ → Option ℕ → List MessageRow
history messages c before_seq = order_by newer (select (page_where c before_seq) messages)

abbrev or_else : Option MessageRow → Option MessageRow → Option MessageRow
or_else none b = b
or_else (some a) b = some a

head?-reverse_aux :
    (xs ys : List MessageRow) → head? (reverse_aux xs ys) ≡ or_else (last? xs) (head? ys)
head?-reverse_aux [] ys = refl
head?-reverse_aux (x ∷ xs) ys = elim (Option-cases (last? xs)) [
  | inl e ↦ head?-reverse_aux xs (x ∷ ys) ∙ rw e refl
  | inr (y, e) ↦ head?-reverse_aux xs (x ∷ ys) ∙ rw e refl
]

or_else-none : (o : Option MessageRow) → or_else o none ≡ o
or_else-none none = refl
or_else-none (some a) = refl

module _ (messages : List MessageRow) (c : ℕ)
    (distinct : IsDistinct newer (select (λ r. r.conversation_id == c) messages)) where
  before-IsDistinct : (b : Option ℕ) → IsDistinct newer (select (page_where c b) messages)
  before-IsDistinct b =
      subst (λ (xs : List MessageRow). IsDistinct newer xs)
        (select-select (is_before b) (λ r. r.conversation_id == c) (page_where c b) messages
          (λ r. refl))
        (IsDistinct-select newer (is_before b) _ distinct)

  step-where :
      (b : Option ℕ) (l r : MessageRow)
      → page_where c b l ≡ true
      → (page_where c b r && newer l r) ≡ page_where c (some l.seq) r
  step-where none l r h = ground arith
  step-where (some s) l r h = ground arith

  history-next :
      (limit : ℕ) (b : Option ℕ) (l : MessageRow)
      → last? (take limit (history messages c b)) ≡ some l
      → history messages c (some l.seq) ≡ drop limit (history messages c b)
  unfolding history
  history-next limit b l e =
      let earlier : page_where c b l ≡ true =
        All-last_take (λ r. page_where c b r ≡ true) limit (history messages c b) l e
          (All-order_by (λ r. page_where c b r ≡ true) newer (select (page_where c b) messages)
            (All-select_self (page_where c b) messages)) in
      let same =
        select-select (newer l) (page_where c b) (page_where c (some l.seq)) messages
          (λ r. step-where b l r earlier) in
      sym (ap (λ (t : List MessageRow). order_by newer t) same)
      ∙ sym (
          select-order_by newer newer-IsOrder (newer l) (select (page_where c b) messages)
            (before-IsDistinct b))
      ∙ rest-after_page newer newer-IsOrder limit (history messages c b) l
          (order_by-IsSorted newer newer-IsOrder _ (before-IsDistinct b)) e

  page-rows :
      (limit : ℕ) (b : Option ℕ)
      → (list_messages_page messages c b limit).rows ≡ reverse (take limit (history messages c b))
  unfolding list_messages_page history
  page-rows limit b = ap (λ (t : List MessageRow). reverse t) (take-take_suc limit _)

  page-has_more :
      (limit : ℕ) (b : Option ℕ)
      → (list_messages_page messages c b limit).has_more ≡ ltb limit (length (history messages c b))
  unfolding list_messages_page history
  page-has_more limit b =
      ground (arith, length-take (limit + 1) (order_by newer (select (page_where c b) messages)))

  page_and_before :
      (limit : ℕ) (b : Option ℕ) (oldest : MessageRow)
      → head? (list_messages_page messages c b limit).rows ≡ some oldest
      → (list_messages_page messages c (some oldest.seq) limit).rows
          ++ (list_messages_page messages c b limit).rows
        ≡ reverse (take (limit + limit) (history messages c b))
  page_and_before limit b oldest e =
      let near = take limit (history messages c b) in
      let next : history messages c (some oldest.seq) ≡ drop limit (history messages c b) =
        history-next limit b oldest (
          sym (or_else-none (last? near))
          ∙ sym (head?-reverse_aux near [])
          ∙ ap (λ (t : List MessageRow). head? t) (sym (page-rows limit b))
          ∙ e) in
      rw (page-rows limit b) (
        rw (page-rows limit (some oldest.seq)) (
          rw next (
            sym (reverse-append near (take limit (drop limit (history messages c b))))
            ∙ ap (λ (t : List MessageRow). reverse t)
                (take-append-drop limit limit (history messages c b)))))

-- Asking for the page before the oldest message of a page continues the history without a hole or
-- a repeat: the two together are twice as many messages, oldest first. And a page says that there
-- is more exactly if the history is longer than it.
pub pages-join :
    (chat : Chat) (c limit : ℕ) (b : Option ℕ) (oldest : MessageRow)
    → IsGapless chat
    → head? (list_messages_page chat.messages c b limit).rows ≡ some oldest
    → ((list_messages_page chat.messages c (some oldest.seq) limit).rows
          ++ (list_messages_page chat.messages c b limit).rows
        ≡ reverse (take (limit + limit) (history chat.messages c b)))
      × ((list_messages_page chat.messages c b limit).has_more
          ≡ ltb limit (length (history chat.messages c b)))
unfolding seqs
pages-join chat c limit b oldest g e =
    let distinct =
      IsDistinct-flip _
        (countdown-IsDistinct (last_seq_of c chat.conversations) _ (g.numbered c)).1 in
    (
      page_and_before chat.messages c distinct limit b oldest e,
      page-has_more chat.messages c distinct limit b,
    )
