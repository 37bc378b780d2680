-- ===== src/Client/Merging.antt =====
-- Which messages a merge of apps/mobile/src/data/messagesState.ts leaves on the screen.
use videochat.Prelude.{
  ℕ, ◌≡◌, refl, ◌∙◌, inl, inr, Bool, true, ◌||◌, Option, none, some, List, [], ◌∷◌, any, arith, All,
  All-order_by, All-select_self, All-imp, Bool-cases, ltb, leb, ◌==◌, order_by, insert_by, last?,
}
use videochat.Client.MessagesState.{
  Message, MessagesState, set_by_id, set_all_by_id, base_of, merge_messages, merge_latest_page,
  kept_of, reaches,
}

any-insert_by :
    (p : Message → Bool) (before : Message → Message → Bool) (x : Message) (xs : List Message)
    → any p (insert_by before x xs) ≡ (p x || any p xs)
any-insert_by p before x [] = refl
any-insert_by p before x (y ∷ ys) = ground (arith, any-insert_by p before x ys)

any-order_by :
    (p : Message → Bool) (before : Message → Message → Bool) (xs : List Message)
    → any p (order_by before xs) ≡ any p xs
any-order_by p before [] = refl
any-order_by p before (x ∷ xs) =
    ground (arith, any-insert_by p before x (order_by before xs), any-order_by p before xs)

any-set_by_id :
    (k : ℕ) (xs : List Message) (m : Message)
    → any (λ x. x.id == k) (set_by_id xs m) ≡ (any (λ x. x.id == k) xs || m.id == k)
any-set_by_id k [] m = ground arith
any-set_by_id k (x ∷ xs) m = ground (arith, any-set_by_id k xs m)

any-set_all_by_id :
    (k : ℕ) (xs ms : List Message)
    → any (λ x. x.id == k) (set_all_by_id xs ms)
      ≡ (any (λ x. x.id == k) xs || any (λ x. x.id == k) ms)
any-set_all_by_id k xs [] = ground arith
any-set_all_by_id k xs (m ∷ ms) =
    ground (arith, any-set_all_by_id k (set_by_id xs m) ms, any-set_by_id k xs m)

-- A merge loses no message and invents none: what is loaded after it is what was loaded or came in.
pub merge_messages-any :
    (state : Option MessagesState) (incoming : List Message) (k : ℕ)
    → any (λ x. x.id == k) (merge_messages state incoming).messages
      ≡ (any (λ x. x.id == k) (base_of state).messages || any (λ x. x.id == k) incoming)
unfolding merge_messages
merge_messages-any state [] k = ground arith
merge_messages-any state (m ∷ ms) k =
    any-order_by (λ x. x.id == k) (λ a b. leb a.seq b.seq) _
    ∙ any-set_all_by_id k (set_all_by_id [] (base_of state).messages) (m ∷ ms)
    ∙ ground (arith, any-set_all_by_id k [] (base_of state).messages)

module _ (P : Message → Type 0) where
  All-set_by_id : (xs : List Message) (m : Message) → P m → All P xs → All P (set_by_id xs m)
  All-set_by_id [] m h k = (h, tt)
  All-set_by_id (x ∷ xs) m h k = elim (Bool-cases (x.id == m.id)) [
    | inl e ↦ rw e (h, k.1)
    | inr e ↦ rw e (k.0, All-set_by_id xs m h k.1)
  ]

  All-set_all_by_id : (xs ms : List Message) → All P ms → All P xs → All P (set_all_by_id xs ms)
  All-set_all_by_id xs [] h k = k
  All-set_all_by_id xs (m ∷ ms) h k =
      All-set_all_by_id (set_by_id xs m) ms h.1 (All-set_by_id xs m h.0 k)

self-any : (ms : List Message) → All (λ m. any (λ x. x.id == m.id) ms ≡ true) ms
self-any [] = tt
self-any (m ∷ ms) = (
  ground arith,
  All-imp (λ x. any (λ y. y.id == x.id) ms ≡ true) (λ x. any (λ y. y.id == x.id) (m ∷ ms) ≡ true) ms
      (λ x h. ground arith) (self-any ms),
)

kept-All :
    (state : Option MessagesState) (first : Message)
    → All (λ m. ltb m.seq first.seq ≡ true) (kept_of state (some first))
kept-All none first = tt
kept-All (some state) first = elim (Bool-cases (reaches (last? state.messages) first.seq)) [
  | inl e ↦ rw e (All-select_self (λ m. ltb m.seq first.seq) state.messages)
  | inr e ↦ rw e tt
]

-- After the latest page was merged, every loaded message is older than the page or on it: a message
-- that was loaded and is newer than the page, or missing from it, is dropped.
pub merge_latest_page-All :
    (state : Option MessagesState) (first : Message) (rest : List Message) (more : Bool)
    → All
        (λ m. (ltb m.seq first.seq || any (λ x. x.id == m.id) (first ∷ rest)) ≡ true)
        (merge_latest_page state (record { rows = first ∷ rest; has_more = more })).messages
unfolding merge_latest_page merge_messages
merge_latest_page-All state first rest more =
    let P : Message → Type 0 =
      λ m. (ltb m.seq first.seq || any (λ x. x.id == m.id) (first ∷ rest)) ≡ true in
    All-order_by P (λ a b. leb a.seq b.seq) _
      (All-set_all_by_id P _ (first ∷ rest)
        (All-imp (λ m. any (λ x. x.id == m.id) (first ∷ rest) ≡ true) P (first ∷ rest)
          (λ m h. ground (arith, h)) (self-any (first ∷ rest)))
        (All-set_all_by_id P [] _
          (All-imp (λ m. ltb m.seq first.seq ≡ true) P _ (λ m h. ground (arith, h))
            (kept-All state first))
          tt))
