-- ===== src/Outbox/Rounds.antt =====
-- One round of the loop of `flushOutbox` (apps/mobile/src/outbox/flush.ts).
use videochat.Prelude.{
  ℕ, ◌+◌, ◌≡◌, refl, ap, ◌∙◌, inl, inr, Bool, false, ◌&&◌, List, [], ◌∷◌, ◌++◌, select, any, arith,
  Bool-cases, ◌==◌, if◌then◌else◌, leb, not, true,
}
use videochat.Outbox.Flush.{
  OutboxItem, Outbox, SendOutcome, is_queued, is_accepted, flush_outcome, remove, mark_failed,
  is_final, accepted, api_error, network_error, max_unauthorized, flush_refused, flush_unauthorized,
}

-- Whether a message is still waiting to be sent.
unfoldable pub waits : ℕ → List OutboxItem → Bool
waits id store = any (λ i. i.client_msg_id == id && is_queued i) store

-- The rows of a message.
unfoldable pub rows_of : ℕ → List OutboxItem → List OutboxItem
rows_of id store = select (λ i. i.client_msg_id == id) store

-- What one round of the loop, that does not stop it, does to the outbox.
pub record Settles (id : ℕ) (sends : Bool) (box after : Outbox) : Type 0 where
  pub sent_is : after.delivered ≡ box.delivered ++ (if sends then id ∷ [] else [])
  pub settled : waits id after.store ≡ false
  pub quiet : (k : ℕ) → waits k box.store ≡ false → waits k after.store ≡ false
  pub others : (k : ℕ) → (k == id) ≡ false → rows_of k after.store ≡ rows_of k box.store

remove-waits :
    (k id : ℕ) (store : List OutboxItem) → waits k store ≡ false → waits k (remove store id) ≡ false
unfolding waits remove
remove-waits k id [] h = h
remove-waits k id (i ∷ is_) h = ground (arith, remove-waits k id is_)

remove-settles : (id : ℕ) (store : List OutboxItem) → waits id (remove store id) ≡ false
unfolding waits remove
remove-settles id [] = refl
remove-settles id (i ∷ is_) = ground (arith, remove-settles id is_)

remove-others :
    (k id : ℕ) (store : List OutboxItem)
    → (k == id) ≡ false
    → rows_of k (remove store id) ≡ rows_of k store
unfolding rows_of remove
remove-others k id [] h = refl
remove-others k id (i ∷ is_) h = ground (arith, remove-others k id is_)

failed-waits :
    (k id : ℕ) (store : List OutboxItem)
    → waits k store ≡ false
    → waits k (mark_failed store id) ≡ false
unfolding waits mark_failed
failed-waits k id [] h = h
failed-waits k id (i ∷ is_) h = ground (arith, failed-waits k id is_)

failed-settles : (id : ℕ) (store : List OutboxItem) → waits id (mark_failed store id) ≡ false
unfolding waits mark_failed
failed-settles id [] = refl
failed-settles id (i ∷ is_) = ground (arith, failed-settles id is_)

failed-others :
    (k id : ℕ) (store : List OutboxItem)
    → (k == id) ≡ false
    → rows_of k (mark_failed store id) ≡ rows_of k store
unfolding rows_of mark_failed
failed-others k id [] h = refl
failed-others k id (i ∷ is_) h = ground (arith, failed-others k id is_)

pub append-none : (xs : List ℕ) → xs ≡ xs ++ []
append-none [] = refl
append-none (x ∷ xs) = ap (λ (t : List ℕ). x ∷ t) (append-none xs)

failed-Settles :
    (id : ℕ) (box after : Outbox)
    → after.store ≡ mark_failed box.store id
    → after.delivered ≡ box.delivered
    → Settles id false box after
failed-Settles id box after store_is delivered_is = record {
  sent_is = delivered_is ∙ append-none box.delivered;
  settled = rw store_is (failed-settles id box.store);
  quiet = λ k h. rw store_is (failed-waits k id box.store h);
  others = λ k h. rw store_is (failed-others k id box.store h);
}

refused-Settles :
    (box : Outbox) (id : ℕ) (final : Bool)
    → (flush_refused box id final).1 ≡ false
    → Settles id false box (flush_refused box id final).0
refused-Settles box id true go = failed-Settles id box _ refl refl
refused-Settles box id false go = cc

unauthorized-Settles :
    (box : Outbox) (id count : ℕ)
    → (flush_unauthorized box id count).1 ≡ false
    → Settles id false box (flush_unauthorized box id count).0
unauthorized-Settles box id count go = elim (Bool-cases (leb max_unauthorized count)) [
  | inl k ↦ rw k (failed-Settles id box _ refl refl)
  | inr k ↦ absurd (ground (arith, rw k at go))
]

error-Settles :
    (box : Outbox) (id : ℕ) (is_401 final : Bool)
    → (if is_401
        then flush_unauthorized box id (box.unauthorized id + 1)
        else flush_refused box id final).1
      ≡ false
    → Settles id false box
        (if is_401
          then flush_unauthorized box id (box.unauthorized id + 1)
          else flush_refused box id final).0
error-Settles box id true final go = unauthorized-Settles box id (box.unauthorized id + 1) go
error-Settles box id false final go = refused-Settles box id final go

pub outcome-Settles :
    (box : Outbox) (id : ℕ) (o : SendOutcome)
    → (flush_outcome box id o).1 ≡ false
    → Settles id (is_accepted o) box (flush_outcome box id o).0
outcome-Settles box id accepted go = record {
  sent_is = refl;
  settled = remove-settles id box.store;
  quiet = λ k h. remove-waits k id box.store h;
  others = λ k h. remove-others k id box.store h;
}
outcome-Settles box id network_error go = cc
outcome-Settles box id (api_error status) go =
    error-Settles box id (status == 401) (is_final status) go

-- The answers after which the same message is tried again later.
abbrev pub is_retryable : SendOutcome → Bool
is_retryable accepted = false
is_retryable (api_error status) = not (is_final status)
is_retryable network_error = true

unauthorized-stops :
    (box : Outbox) (id count : ℕ)
    → (flush_unauthorized box id count).1 ≡ true
    → ((flush_unauthorized box id count).0.store ≡ box.store)
      × ((flush_unauthorized box id count).0.delivered ≡ box.delivered)
unauthorized-stops box id count go = elim (Bool-cases (leb max_unauthorized count)) [
  | inl k ↦ absurd (ground (arith, rw k at go))
  | inr k ↦ rw k (refl, refl)
]

pub record Untouched (box after : Outbox) : Type 0 where
  pub same_store : after.store ≡ box.store
  pub same_delivered : after.delivered ≡ box.delivered

error-stops :
    (box : Outbox) (id : ℕ) (is_401 final : Bool)
    → (is_401 ≡ true → final ≡ false)
    → (if is_401
        then flush_unauthorized box id (box.unauthorized id + 1)
        else flush_refused box id final).1
      ≡ true
    → Untouched box
        (if is_401
          then flush_unauthorized box id (box.unauthorized id + 1)
          else flush_refused box id final).0
      × (final ≡ false)
error-stops box id true final h go =
    let same = unauthorized-stops box id (box.unauthorized id + 1) go in
    (record { same_store = same.0; same_delivered = same.1 }, h refl)
error-stops box id false true h go = cc
error-stops box id false false h go = (record { same_store = refl; same_delivered = refl }, refl)

pub outcome-stops :
    (box : Outbox) (id : ℕ) (o : SendOutcome)
    → (flush_outcome box id o).1 ≡ true
    → Untouched box (flush_outcome box id o).0 × (is_retryable o ≡ true)
outcome-stops box id accepted go = cc
outcome-stops box id network_error go = (record { same_store = refl; same_delivered = refl }, refl)
outcome-stops box id (api_error status) go =
    let (same, kept) =
      error-stops box id (status == 401) (is_final status) (λ e. ground arith) go in
    (same, rw kept refl)
