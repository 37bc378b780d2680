-- ===== src/Outbox/Order.antt =====
-- The order in which `flushOutbox` (apps/mobile/src/outbox/flush.ts) sends, and what it leaves.
use videochat.Prelude.{
  ℕ, ◌≡◌, refl, ap, ◌∙◌, inl, inr, Bool, false, ◌&&◌, List, [], ◌∷◌, ◌++◌, select, any, arith,
  Bool-cases, ◌==◌, if◌then◌else◌, map, not, All, ◌||◌, true, take,
}
use videochat.Outbox.Flush.{
  OutboxItem, Outbox, SendOutcome, is_queued, is_accepted, flush_item, flush_items, flush_outbox,
}
use videochat.Outbox.Rounds.{
  waits, rows_of, Settles, append-none, outcome-Settles, Untouched, outcome-stops, is_retryable,
}

-- An item that ends the run: the account has changed, or the answer is one to try again after.
abbrev pub blocks : (OutboxItem → SendOutcome) → (OutboxItem → Bool) → OutboxItem → Bool
blocks send same_account item =
    is_queued item && (not (same_account item) || is_retryable (send item))

-- A run: the items up to some point were each sent or marked failed, those sent in their order, and
-- the rest was not touched.
pub record IsPrefixRun (send : OutboxItem → SendOutcome) (same_account : OutboxItem → Bool)
    (items : List OutboxItem) (box after : Outbox) (stopped : Bool) : Type 0 where
  pub done : List OutboxItem
  pub rest : List OutboxItem
  pub split : items ≡ done ++ rest
  pub in_order :
      after.delivered
      ≡ box.delivered
        ++ map (λ i. i.client_msg_id) (select (λ i. is_queued i && is_accepted (send i)) done)
  pub settled :
      All (λ i. (not (is_queued i) || not (waits i.client_msg_id after.store)) ≡ true) done
  pub untouched :
      (k : ℕ)
      → any (λ i. k == i.client_msg_id) done ≡ false
      → rows_of k after.store ≡ rows_of k box.store
  pub quiet : (k : ℕ) → waits k box.store ≡ false → waits k after.store ≡ false
  pub complete : stopped ≡ false → rest ≡ []
  pub because : stopped ≡ true → any (blocks send same_account) (take 1 rest) ≡ true

-- What one item does.
record Steps (send : OutboxItem → SendOutcome) (item : OutboxItem) (box after : Outbox)
    : Type 0 where
  in_order_ :
      after.delivered
      ≡ box.delivered
        ++ (if is_queued item && is_accepted (send item) then item.client_msg_id ∷ [] else [])
  settled_ : (not (is_queued item) || not (waits item.client_msg_id after.store)) ≡ true
  untouched_ :
      (k : ℕ) → (k == item.client_msg_id) ≡ false → rows_of k after.store ≡ rows_of k box.store
  quiet_ : (k : ℕ) → waits k box.store ≡ false → waits k after.store ≡ false

Settles-Steps :
    (send : OutboxItem → SendOutcome) (item : OutboxItem) (box after : Outbox)
    → is_queued item ≡ true
    → Settles item.client_msg_id (is_accepted (send item)) box after
    → Steps send item box after
Settles-Steps send item box after e s = record {
  in_order_ = rw e s.sent_is;
  settled_ = rw s.settled (ground arith);
  untouched_ = s.others;
  quiet_ = s.quiet;
}

append_assoc : (xs ys zs : List ℕ) → (xs ++ ys) ++ zs ≡ xs ++ (ys ++ zs)
append_assoc [] ys zs = refl
append_assoc (x ∷ xs) ys zs = ap (λ (t : List ℕ). x ∷ t) (append_assoc xs ys zs)

module _ (send : OutboxItem → SendOutcome) (same_account : OutboxItem → Bool) where
  flush_item-Steps :
      (box : Outbox) (item : OutboxItem)
      → (flush_item send same_account box item).1 ≡ false
      → Steps send item box (flush_item send same_account box item).0
  unfolding flush_item
  flush_item-Steps box item go = elim (Bool-cases (is_queued item)) [
    | inl e ↦ elim (Bool-cases (same_account item)) [
      | inl k ↦ rw e (
          rw k (
            Settles-Steps send item box _ e
              (outcome-Settles box item.client_msg_id (send item) (rw k at rw e at go))))
      | inr k ↦ absurd (ground (arith, rw k at rw e at go))
    ]
    | inr e ↦ rw e (record {
      in_order_ = rw e (append-none box.delivered);
      settled_ = rw e refl;
      untouched_ = λ k h. refl;
      quiet_ = λ k h. h;
    })
  ]

  flush_item-stops :
      (box : Outbox) (item : OutboxItem)
      → (flush_item send same_account box item).1 ≡ true
      → Untouched box (flush_item send same_account box item).0
        × (blocks send same_account item ≡ true)
  unfolding flush_item
  flush_item-stops box item go = elim (Bool-cases (is_queued item)) [
    | inl e ↦ elim (Bool-cases (same_account item)) [
      | inl k ↦ rw e (rw k (outcome-stops box item.client_msg_id (send item) (rw k at rw e at go)))
      | inr k ↦ rw e (rw k (record { same_store = refl; same_delivered = refl }, refl))
    ]
    | inr e ↦ absurd (ground (arith, rw e at go))
  ]

  stop-IsPrefixRun :
      (box after : Outbox) (items : List OutboxItem) (b : Bool)
      → Untouched box after
      → (b ≡ false → items ≡ [])
      → (b ≡ true → any (blocks send same_account) (take 1 items) ≡ true)
      → IsPrefixRun send same_account items box after b
  stop-IsPrefixRun box after items b same h w = record {
    done = [];
    rest = items;
    split = refl;
    in_order = same.same_delivered ∙ append-none box.delivered;
    settled = tt;
    untouched = λ k e. rw same.same_store refl;
    quiet = λ k e. rw same.same_store e;
    complete = h;
    because = w;
  }

  go-IsPrefixRun :
      (item : OutboxItem) (items : List OutboxItem) (box next after : Outbox) (b : Bool)
      → Steps send item box next
      → IsPrefixRun send same_account items next after b
      → IsPrefixRun send same_account (item ∷ items) box after b
  go-IsPrefixRun item items box next after b s r = record {
    done = item ∷ r.done;
    rest = r.rest;
    split = ap (λ (t : List OutboxItem). item ∷ t) r.split;
    in_order =
        r.in_order
        ∙ ap
            (λ (t : List ℕ).
              t
              ++ map (λ i. i.client_msg_id)
                  (select (λ i. is_queued i && is_accepted (send i)) r.done))
            s.in_order_
        ∙ append_assoc box.delivered _ _
        ∙ elim (Bool-cases (is_queued item && is_accepted (send item))) [
          | inl q ↦ rw q refl
          | inr q ↦ rw q refl
        ];
    settled = (ground (arith, s.settled_, r.quiet item.client_msg_id), r.settled);
    untouched = λ k e. r.untouched k (ground (arith, e)) ∙ s.untouched_ k (ground (arith, e));
    quiet = λ k e. r.quiet k (s.quiet_ k e);
    complete = r.complete;
    because = r.because;
  }

  flush_items-IsPrefixRun :
      (box : Outbox) (items : List OutboxItem) (sent : ℕ)
      → IsPrefixRun send same_account items box
          (flush_items send same_account box items sent).0
          (flush_items send same_account box items sent).1.stopped
  unfolding flush_items
  flush_items-IsPrefixRun box [] sent =
      stop-IsPrefixRun box box [] false (record { same_store = refl; same_delivered = refl })
        (λ e. refl) (λ f. cc)
  flush_items-IsPrefixRun box (item ∷ items) sent =
      let step = flush_item send same_account box item in
      elim (Bool-cases step.1) [
        | inl e ↦ rw e (
            let (same, why) = flush_item-stops box item e in
            stop-IsPrefixRun box step.0 (item ∷ items) true same (λ f. cc) (λ f. rw why refl))
        | inr e ↦ rw e (
            go-IsPrefixRun item items box step.0 _ _ (flush_item-Steps box item e)
              (flush_items-IsPrefixRun step.0 items _))
      ]

  -- A run of the outbox deals with its items in the order in which they were typed, up to some
  -- point: the server has accepted exactly the accepted ones among them in that order, none of them
  -- waits any more, and the store's rows of all other messages are as they were. If the run was not
  -- stopped, that is every item; if it was, the next one is a message whose answer is one to try
  -- again after, or the account has changed.
  pub flush_outbox-IsPrefixRun :
      (box : Outbox)
      → IsPrefixRun send same_account box.store box
          (flush_outbox send same_account box).0
          (flush_outbox send same_account box).1.stopped
  unfolding flush_outbox
  flush_outbox-IsPrefixRun box = flush_items-IsPrefixRun box box.store 0
