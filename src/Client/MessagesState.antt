-- ===== src/Client/MessagesState.antt =====
-- The messages that the mobile client has loaded of a conversation:
-- apps/mobile/src/data/messagesState.ts. Of a message it reads the id, the number and the
-- reactions; everything else is one opaque `content`.
use videochat.Prelude.{
  ℕ, ◌+◌, Bool, false, Option, none, some, List, [], ◌∷◌, any, select, map, head?, last?, leb, ltb,
  ◌==◌, if◌then◌else◌, order_by,
}
use videochat.Messages.Paging.{MessagesPage}

pub record Reaction : Type 0 where
  pub emoji : ℕ
  pub count : ℕ
  pub user_ids : List ℕ

pub record Message : Type 0 where
  pub id : ℕ
  pub seq : ℕ
  pub content : ℕ
  pub reactions : Option (List Reaction)

pub record MessagesState : Type 0 where
  pub messages : List Message
  pub has_more : Bool

abbrev pub empty_messages : MessagesState
empty_messages = record { messages = []; has_more = false }

-- `byId.set(m.id, m)`: a key that is there keeps its place.
abbrev pub set_by_id : List Message → Message → List Message
set_by_id [] m = m ∷ []
set_by_id (x ∷ xs) m = let rest = set_by_id xs m in if x.id == m.id then m ∷ xs else x ∷ rest

abbrev pub set_all_by_id : List Message → List Message → List Message
set_all_by_id map_ [] = map_
set_all_by_id map_ (m ∷ ms) = set_all_by_id (set_by_id map_ m) ms

-- `sort((a, b) => a.seq - b.seq)`, which is stable.
abbrev pub sort_by_seq : List Message → List Message
sort_by_seq ms = order_by (λ a b. leb a.seq b.seq) ms

abbrev pub base_of : Option MessagesState → MessagesState
base_of none = empty_messages
base_of (some state) = state

abbrev pub merge_into : MessagesState → List Message → MessagesState
merge_into base [] = base
merge_into base (m ∷ ms) = record base {
  messages = sort_by_seq (set_all_by_id (set_all_by_id [] base.messages) (m ∷ ms));
}

unfoldable pub merge_messages : Option MessagesState → List Message → MessagesState
merge_messages state incoming = merge_into (base_of state) incoming

-- Whether the loaded history reaches a page that begins at this number.
abbrev pub reaches : Option Message → ℕ → Bool
reaches none oldest = false
reaches (some newest) oldest = leb oldest (newest.seq + 1)

abbrev pub kept_of : Option MessagesState → Option Message → List Message
kept_of none oldest_in_page = []
kept_of (some state) none = state.messages
kept_of (some state) (some oldest) =
    if reaches (last? state.messages) oldest.seq
    then select (λ m. ltb m.seq oldest.seq) state.messages
    else []

abbrev pub has_more_of : Option MessagesState → List Message → Bool → Bool
has_more_of (some state) (m ∷ kept) page_has_more = state.has_more
has_more_of state kept page_has_more = page_has_more

unfoldable pub merge_latest_page : Option MessagesState → MessagesPage Message → MessagesState
unfolding merge_messages
merge_latest_page state page =
    let kept = kept_of state (head? page.rows) in
    record {
      messages =
          (merge_messages (some (record { messages = kept; has_more = false })) page.rows).messages;
      has_more = has_more_of state kept page.has_more;
    }

unfoldable pub prepend_older : Option MessagesState → MessagesPage Message → MessagesState
prepend_older state page = record {
  messages = (merge_messages state page.rows).messages;
  has_more = page.has_more;
}

abbrev pub with_reactions : List Reaction → Message → Message
with_reactions [] m = record m { reactions = none }
with_reactions (r ∷ rs) m = record m { reactions = some (r ∷ rs) }

abbrev pub react : ℕ → List Reaction → Message → Message
react id reactions m = if m.id == id then with_reactions reactions m else m

unfoldable pub set_reactions : Option MessagesState → ℕ → List Reaction → Option MessagesState
set_reactions none id reactions = none
set_reactions (some state) id reactions =
    if any (λ m. m.id == id) state.messages
    then some (record state { messages = map (react id reactions) state.messages })
    else some state
