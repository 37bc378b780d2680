-- ===== src/Outbox/Examples.antt =====
-- The outbox at a concrete input: the second of four messages is refused, and the network is down
-- before the last one.
use videochat.Prelude.{ℕ, [], ◌∷◌, true, ◌==◌, if◌then◌else◌, ◌≡◌, refl}
use videochat.Outbox.Flush.{
  Outbox, OutboxItem, SendOutcome, queued, accepted, api_error, network_error, flush_outbox,
  flush_item, flush_items,
}
use videochat.Outbox.Order.{IsPrefixRun, flush_outbox-IsPrefixRun}

abbrev item : ℕ → OutboxItem
item id = record { client_msg_id = id; state = queued }

abbrev box : Outbox
box = record {
  store = item 1 ∷ item 2 ∷ item 3 ∷ item 4 ∷ [];
  unauthorized = λ id. 0;
  delivered = [];
}

abbrev answer : OutboxItem → SendOutcome
answer i =
    if i.client_msg_id == 2
    then api_error 403
    else if i.client_msg_id == 4
    then network_error
    else accepted

flush_example :
    IsPrefixRun answer
      (λ i. true)
      box.store
      box
      (flush_outbox answer (λ i. true) box).0
      (flush_outbox answer (λ i. true) box).1.stopped
flush_example = flush_outbox-IsPrefixRun answer (λ i. true) box

flush-delivers : (flush_outbox answer (λ i. true) box).0.delivered ≡ 1 ∷ 3 ∷ []
unfolding flush_outbox flush_items flush_item
flush-delivers = refl
