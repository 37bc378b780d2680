-- ===== src/Client/ReadReceipts.antt =====
-- The throttle of read receipts: apps/web/src/features/chat/readReceipts.ts, for one conversation
-- (its maps are keyed by the conversation). A timer is the time at which it is due; a browser
-- never runs one before that.
use videochat.Prelude.{ℕ, ◌+◌, ◌-◌, Option, none, some, List, [], ◌∷◌, ltb, leb, if◌then◌else◌}

pub record Throttle : Type 0 where
  pub sent_seq : Option ℕ
  pub last_sent_at : Option ℕ
  pub pending_seq : Option ℕ
  pub timer : Option ℕ

-- `?? 0`.
abbrev pub or_zero : Option ℕ → ℕ
or_zero none = 0
or_zero (some n) = n

abbrev pub max : ℕ → ℕ → ℕ
max a b = if ltb a b then b else a

-- `max(0, interval - elapsed)`, where nothing was sent yet an infinite time has elapsed.
abbrev pub delay_of : ℕ → Option ℕ → ℕ → ℕ
delay_of interval none now = 0
delay_of interval (some last) now = (interval + last) - now

abbrev pub schedule : ℕ → Throttle → ℕ → Option ℕ → Throttle
schedule interval t now none = record t {
  timer = some (now + delay_of interval t.last_sent_at now);
}
schedule interval t now (some due) = t

unfoldable pub request : ℕ → Throttle → ℕ → ℕ → Throttle
request interval t seq now =
    if leb seq (max (or_zero t.sent_seq) (or_zero t.pending_seq))
    then t
    else schedule interval (record t { pending_seq = some seq }) now t.timer

-- The state, and what was sent.
abbrev pub flush_pending : Throttle → ℕ → Option ℕ → Throttle × Option ℕ
flush_pending t now none = (record t { timer = none }, none)
flush_pending t now (some seq) = (
  record { sent_seq = some seq; last_sent_at = some now; pending_seq = none; timer = none },
  some seq,
)

unfoldable pub flush : Throttle → ℕ → Throttle × Option ℕ
flush t now = flush_pending t now t.pending_seq

unfoldable pub cancel : Throttle → Throttle
cancel t = record t { pending_seq = none; timer = none }

pub data ThrottleEvent : Type 0 where
  requested : (seq : ℕ) → (now : ℕ) → ThrottleEvent
  timer_ran : (now : ℕ) → ThrottleEvent
  cancelled : ThrottleEvent

-- The throttle and what it has sent with the times, the last first.
pub record Sending : Type 0 where
  pub throttle : Throttle
  pub log : List (ℕ × ℕ)

abbrev pub log_sent : List (ℕ × ℕ) → ℕ → Option ℕ → List (ℕ × ℕ)
log_sent log now none = log
log_sent log now (some seq) = (seq, now) ∷ log

abbrev pub run_timer : Sending → ℕ → Option ℕ → Sending
run_timer s now none = s
run_timer s now (some due) =
    if leb due now
    then record {
      throttle = (flush s.throttle now).0;
      log = log_sent s.log now (flush s.throttle now).1;
    }
    else s

unfoldable pub run_event : ℕ → Sending → ThrottleEvent → Sending
run_event interval s (requested seq now) = record s {
  throttle = request interval s.throttle seq now;
}
run_event interval s (timer_ran now) = run_timer s now s.throttle.timer
run_event interval s cancelled = record s { throttle = cancel s.throttle }

unfoldable pub run_events : ℕ → Sending → List ThrottleEvent → Sending
run_events interval s [] = s
run_events interval s (e ∷ es) = run_events interval (run_event interval s e) es
