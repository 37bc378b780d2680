-- ===== src/Outbox/Flush.antt =====
-- The outbox of the mobile client: `flushOutbox` of apps/mobile/src/outbox/flush.ts, with the map
-- of 401s that its runner always passes. `send` is the server's answer to each item of this run and
-- `same_account` whether the session generation read before the item is the one of the run. The
-- calls of the local store (`remove`, `markFailed`) and `onSent` succeed here.
use videochat.Prelude.{
  ℕ, ◌+◌, Bool, true, false, not, ◌&&◌, List, [], ◌∷◌, ◌++◌, select, update, ltb, leb, ◌==◌,
  if◌then◌else◌,
}

pub data OutboxState : Type 0 where
  queued failed : OutboxState

pub record OutboxItem : Type 0 where
  pub client_msg_id : ℕ
  pub state : OutboxState

-- What `send` comes back with.
pub data SendOutcome : Type 0 where
  accepted : SendOutcome
  api_error : (status : ℕ) → SendOutcome
  network_error : SendOutcome

-- The local store, the consecutive 401s per message (0 for a missing key), and what the server
-- accepted, in order.
pub record Outbox : Type 0 where
  pub store : List OutboxItem
  pub unauthorized : ℕ → ℕ
  pub delivered : List ℕ

pub record FlushResult : Type 0 where
  pub sent : ℕ
  pub stopped : Bool

-- `MAX_UNAUTHORIZED`.
abbrev pub max_unauthorized : ℕ
max_unauthorized = 3

abbrev pub is_queued : OutboxItem → Bool
is_queued i = elim i.state [ queued ↦ true | failed ↦ false ]

unfoldable pub remove : List OutboxItem → ℕ → List OutboxItem
remove store id = select (λ i. not (i.client_msg_id == id)) store

abbrev pub set_failed : OutboxItem → OutboxItem
set_failed i = record i { state = failed }

unfoldable pub mark_failed : List OutboxItem → ℕ → List OutboxItem
mark_failed store id = update (λ i. i.client_msg_id == id) set_failed store

abbrev pub set_count : (ℕ → ℕ) → ℕ → ℕ → ℕ → ℕ
set_count counts id n k = if k == id then n else counts k

-- The server's "no", which retrying does not change.
abbrev pub is_final : ℕ → Bool
is_final status =
    leb 400 status
    && ltb status 500
    && not (status == 401)
    && not (status == 408)
    && not (status == 429)

abbrev pub is_accepted : SendOutcome → Bool
is_accepted accepted = true
is_accepted (api_error status) = false
is_accepted network_error = false

abbrev pub deliver : Outbox → ℕ → Outbox
deliver box id = record {
  store = remove box.store id;
  unauthorized = set_count box.unauthorized id 0;
  delivered = box.delivered ++ id ∷ [];
}

abbrev pub give_up : Outbox → ℕ → Outbox
give_up box id = record box { store = mark_failed box.store id }

-- One item: the outbox after it, how many messages it sent, and whether it stops the run.
abbrev pub flush_unauthorized : Outbox → ℕ → ℕ → Outbox × Bool
flush_unauthorized box id count =
    if leb max_unauthorized count
    then (record (give_up box id) { unauthorized = set_count box.unauthorized id 0 }, false)
    else (record box { unauthorized = set_count box.unauthorized id count }, true)

abbrev pub flush_refused : Outbox → ℕ → Bool → Outbox × Bool
flush_refused box id final = if final then (give_up box id, false) else (box, true)

abbrev pub flush_outcome : Outbox → ℕ → SendOutcome → Outbox × Bool
flush_outcome box id accepted = (deliver box id, false)
flush_outcome box id network_error = (box, true)
flush_outcome box id (api_error status) =
    if status == 401
    then flush_unauthorized box id (box.unauthorized id + 1)
    else flush_refused box id (is_final status)

module _ (send : OutboxItem → SendOutcome) (same_account : OutboxItem → Bool) where
  -- The body of the loop.
  unfoldable pub flush_item : Outbox → OutboxItem → Outbox × Bool
  flush_item box item =
      if not (is_queued item)
      then (box, false)
      else if not (same_account item)
      then (box, true)
      else flush_outcome box item.client_msg_id (send item)

  abbrev pub count_sent : OutboxItem → ℕ
  count_sent item = if is_queued item && same_account item && is_accepted (send item) then 1 else 0

  unfoldable pub flush_items : Outbox → List OutboxItem → ℕ → Outbox × FlushResult
  flush_items box [] sent = (box, record { sent = sent; stopped = false })
  flush_items box (item ∷ items) sent =
      let step = flush_item box item in
      let rest = flush_items step.0 items (sent + count_sent item) in
      if step.1 then (step.0, record { sent = sent; stopped = true }) else rest

  unfoldable pub flush_outbox : Outbox → Outbox × FlushResult
  flush_outbox box = flush_items box box.store 0
