-- ===== src/Messages/Reactions.antt =====
-- Reactions to messages: `toggleReaction` of apps/api/src/db/reactions.ts and the transaction of
-- ReactionsService.toggle (apps/api/src/messages/reactions.service.ts), which holds the message's
-- row lock and so is atomic for the reactions of that message. An emoji is opaque.
use videochat.Prelude.{
  ℕ, Bool, not, ◌&&◌, Option, none, some, List, [], ◌∷◌, any, select, leb, ◌==◌, if◌then◌else◌,
  is_null, suc,
}
use videochat.Messages.Table.{MessageRow, type_eq, system}
use videochat.Messages.ById.{find_message}

pub record ReactionRow : Type 0 where
  pub message_id : ℕ
  pub user_id : ℕ
  pub emoji : ℕ
  pub created_at : ℕ

pub data ToggleResult : Type 0 where
  added removed limit : ToggleResult

abbrev pub is_use : ℕ → ℕ → ReactionRow → Bool
is_use message emoji r = r.message_id == message && r.emoji == emoji

abbrev pub is_reaction : ℕ → ℕ → ℕ → ReactionRow → Bool
is_reaction message user emoji r = is_use message emoji r && r.user_id == user

-- `count(distinct emoji)` over the message's rows.
abbrev pub count_distinct : ℕ → List ReactionRow → ℕ
count_distinct message [] = 0
count_distinct message (r ∷ rs) =
    let rest = count_distinct message rs in
    if r.message_id == message && not (any (is_use message r.emoji) rs) then suc rest else rest

abbrev pub add_reaction : List ReactionRow → ℕ → ℕ → ℕ → ℕ → ℕ → List ReactionRow × ToggleResult
add_reaction rows message user emoji max_distinct now =
    if not (any (is_use message emoji) rows) && leb max_distinct (count_distinct message rows)
    then (rows, limit)
    else (
      record { message_id = message; user_id = user; emoji = emoji; created_at = now } ∷ rows,
      added,
    )

unfoldable pub toggle_reaction :
    List ReactionRow → ℕ → ℕ → ℕ → ℕ → ℕ → List ReactionRow × ToggleResult
toggle_reaction rows message user emoji max_distinct now =
    if any (is_reaction message user emoji) rows
    then (select (λ r. not (is_reaction message user emoji r)) rows, removed)
    else add_reaction rows message user emoji max_distinct now

-- `LIMITS.reactionsPerMessageMax`.
abbrev pub reactions_per_message_max : ℕ
reactions_per_message_max = 20

pub data ToggleError : Type 0 where
  message_not_found cannot_react too_many : ToggleError

pub data Toggled : Type 0 where
  toggle_failed : ToggleError → Toggled
  toggled : ToggleResult → Toggled

abbrev pub toggle_outcome : List ReactionRow × ToggleResult → List ReactionRow × Toggled
toggle_outcome (rows, added) = (rows, toggled added)
toggle_outcome (rows, removed) = (rows, toggled removed)
toggle_outcome (rows, limit) = (rows, toggle_failed too_many)

abbrev pub toggle_found :
    List ReactionRow → ℕ → ℕ → ℕ → ℕ → ℕ → Option MessageRow → List ReactionRow × Toggled
toggle_found rows conversation user message emoji now none = (rows, toggle_failed message_not_found)
toggle_found rows conversation user message emoji now (some m) =
    if not (m.conversation_id == conversation)
    then (rows, toggle_failed message_not_found)
    else if not (is_null m.deleted_at)
    then (rows, toggle_failed cannot_react)
    else if type_eq m.kind system
    then (rows, toggle_failed cannot_react)
    else toggle_outcome (toggle_reaction rows message user emoji reactions_per_message_max now)

-- The transaction, for a member who is not blocked.
unfoldable pub toggle :
    List MessageRow → List ReactionRow → ℕ → ℕ → ℕ → ℕ → ℕ → List ReactionRow × Toggled
toggle messages rows conversation user message emoji now =
    toggle_found rows conversation user message emoji now (find_message messages message)
