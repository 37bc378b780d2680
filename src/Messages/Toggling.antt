-- ===== src/Messages/Toggling.antt =====
-- The cap on the emojis of a message, and toggling back.
use videochat.Prelude.{
  ℕ, ◌+◌, ◌≤◌, ◌≡◌, refl, inl, inr, false, not, ◌&&◌, Option, none, some, List, [], ◌∷◌, any,
  select, leb, ◌==◌, if◌then◌else◌, is_null, arith, Bool-cases,
}
use videochat.Messages.Table.{MessageRow, type_eq, system}
use videochat.Messages.ById.{find_message}
use videochat.Messages.Reactions.{
  ReactionRow, ToggleResult, added, removed, limit, is_use, is_reaction, count_distinct,
  toggle_reaction, reactions_per_message_max, toggle, toggle_found, toggle_outcome,
}

abbrev without : ℕ → ℕ → ℕ → List ReactionRow → List ReactionRow
without message user emoji rows = select (λ r. not (is_reaction message user emoji r)) rows

-- Taking one person's emoji away leaves the uses of every other emoji.
without-others :
    (message user emoji m other : ℕ) (rows : List ReactionRow)
    → (other == emoji) ≡ false
    → any (is_use m other) (without message user emoji rows) ≡ any (is_use m other) rows
without-others message user emoji m other [] d = refl
without-others message user emoji m other (r ∷ rs) d =
    ground (arith, without-others message user emoji m other rs d)

-- It takes away one emoji from the count, where it was the last use of it.
without-count :
    (message user emoji m : ℕ) (rows : List ReactionRow)
    → count_distinct m (without message user emoji rows)
        + (if any (is_use m emoji) rows
              && not (any (is_use m emoji) (without message user emoji rows))
            then 1
            else 0)
      ≤ count_distinct m rows
without-count message user emoji m [] = omega arith
without-count message user emoji m (r ∷ rs) = elim (Bool-cases (r.emoji == emoji)) [
  | inl e ↦ ground (arith, e, without-count message user emoji m rs)
  | inr e ↦ ground (
    arith,
    e,
    without-others message user emoji m r.emoji rs e,
    without-count message user emoji m rs,
  )
]

toggle_reaction-count :
    (rows : List ReactionRow) (message user emoji top now m : ℕ)
    → count_distinct m rows ≤ top
    → count_distinct m (toggle_reaction rows message user emoji top now).0 ≤ top
unfolding toggle_reaction
toggle_reaction-count rows message user emoji top now m h =
    elim (Bool-cases (any (is_reaction message user emoji) rows)) [
      | inl e ↦ rw e (omega (arith, h, without-count message user emoji m rows))
      | inr e ↦ rw e (ground (arith, h))
    ]

outcome-count :
    (m top : ℕ) (r : List ReactionRow × ToggleResult)
    → count_distinct m r.0 ≤ top
    → count_distinct m (toggle_outcome r).0 ≤ top
outcome-count m top (rows, added) h = h
outcome-count m top (rows, removed) h = h
outcome-count m top (rows, limit) h = h

found-count :
    (rows : List ReactionRow) (c user message emoji now m : ℕ) (o : Option MessageRow)
    → count_distinct m rows ≤ reactions_per_message_max
    → count_distinct m (toggle_found rows c user message emoji now o).0 ≤ reactions_per_message_max
found-count rows c user message emoji now m none h = h
found-count rows c user message emoji now m (some x) h =
    let done =
      outcome-count m reactions_per_message_max
        (toggle_reaction rows message user emoji reactions_per_message_max now)
        (toggle_reaction-count rows message user emoji reactions_per_message_max now m h) in
    elim (Bool-cases (x.conversation_id == c)) [
      | inr e ↦ rw e h
      | inl e ↦ elim (Bool-cases (is_null x.deleted_at)) [
        | inr k ↦ rw e (rw k h)
        | inl k ↦ elim (Bool-cases (type_eq x.kind system)) [
          | inl t ↦ rw e (rw k (rw t h))
          | inr t ↦ rw e (rw k (rw t done))
        ]
      ]
    ]

-- A request of somebody, with the messages as they are when it runs.
pub record Toggle : Type 0 where
  pub messages : List MessageRow
  pub conversation : ℕ
  pub user : ℕ
  pub message : ℕ
  pub emoji : ℕ
  pub now : ℕ

unfoldable pub toggle_all : List ReactionRow → List Toggle → List ReactionRow
toggle_all rows [] = rows
toggle_all rows (t ∷ ts) =
    toggle_all (toggle t.messages rows t.conversation t.user t.message t.emoji t.now).0 ts

-- Whoever reacts with whatever in whatever order, no message gets more than 20 different emojis.
pub toggle_all-count :
    (rows : List ReactionRow) (ts : List Toggle) (m : ℕ)
    → count_distinct m rows ≤ 20
    → count_distinct m (toggle_all rows ts) ≤ 20
unfolding toggle_all toggle
toggle_all-count rows [] m h = h
toggle_all-count rows (t ∷ ts) m h =
    toggle_all-count (toggle t.messages rows t.conversation t.user t.message t.emoji t.now).0 ts m (
      found-count rows t.conversation t.user t.message t.emoji t.now m
        (find_message t.messages t.message) h)

without-none :
    (message user emoji : ℕ) (rows : List ReactionRow)
    → any (is_reaction message user emoji) rows ≡ false
    → without message user emoji rows ≡ rows
without-none message user emoji [] h = refl
without-none message user emoji (r ∷ rs) h = ground (arith, without-none message user emoji rs)

-- A person who reacts and repeats the same reaction is back where they were: the second one takes
-- it away, and every other row is as before.
pub toggle_reaction-twice :
    (rows : List ReactionRow) (message user emoji top now later : ℕ)
    → (toggle_reaction rows message user emoji top now).1 ≡ added
    → toggle_reaction
        (toggle_reaction rows message user emoji top now).0
        message
        user
        emoji
        top
        later
      ≡ (rows, removed)
unfolding toggle_reaction
toggle_reaction-twice rows message user emoji top now later e =
    elim (Bool-cases (any (is_reaction message user emoji) rows)) [
      | inl h ↦ ground (arith, rw h at e)
      | inr h ↦
          elim (Bool-cases
            (not (any (is_use message emoji) rows) && leb top (count_distinct message rows))) [
              | inl k ↦ ground (arith, rw k at rw h at e)
              | inr k ↦ rw h (rw k (ground (arith, without-none message user emoji rows h)))
            ]
    ]
