-- ===== src/Client/Throttled.antt =====
-- What a run of the read receipt throttle sends.
use videochat.Prelude.{
  ◌∙◌, ℕ, ◌+◌, ◌≤◌, ◌<◌, ◌≡◌, refl, inl, inr, false, Option, none, some, List, [], ◌∷◌, leb, arith,
  Bool-cases,
}
use videochat.Client.ReadReceipts.{
  Throttle, Sending, ThrottleEvent, requested, timer_ran, cancelled, request, flush, cancel,
  run_event, run_events, run_timer, schedule, or_zero, max, flush_pending, log_sent,
}

-- A send and the one before it.
abbrev Follows : ℕ → ℕ × ℕ → List (ℕ × ℕ) → Type 0
Follows interval x [] = Unit
Follows interval x (y ∷ log) = (y.0 < x.0) × (y.1 + interval ≤ x.1)

-- Each send is of a higher number and at least the interval later than the one before it.
abbrev pub IsSpaced : ℕ → List (ℕ × ℕ) → Type 0
IsSpaced interval [] = Unit
IsSpaced interval (x ∷ log) = Follows interval x log × IsSpaced interval log

-- The state remembers the last send.
abbrev Remembers : Throttle → List (ℕ × ℕ) → Type 0
Remembers t [] = (t.sent_seq ≡ none) × (t.last_sent_at ≡ none)
Remembers t (x ∷ log) = (t.sent_seq ≡ some x.0) × (t.last_sent_at ≡ some x.1)

pub record IsThrottled (interval : ℕ) (s : Sending) : Type 0 where
  pub spaced : IsSpaced interval s.log
  pub remembers : Remembers s.throttle s.log
  pub above : (p : ℕ) → s.throttle.pending_seq ≡ some p → or_zero s.throttle.sent_seq < p
  pub later :
      (due last : ℕ)
      → s.throttle.timer ≡ some due
      → s.throttle.last_sent_at ≡ some last
      → last + interval ≤ due

Remembers-same :
    (t u : Throttle) (log : List (ℕ × ℕ))
    → u.sent_seq ≡ t.sent_seq
    → u.last_sent_at ≡ t.last_sent_at
    → Remembers t log
    → Remembers u log
Remembers-same t u [] e k h = (e ∙ h.0, k ∙ h.1)
Remembers-same t u (x ∷ log) e k h = (e ∙ h.0, k ∙ h.1)

schedule-IsThrottled :
    (interval now : ℕ) (t : Throttle) (log : List (ℕ × ℕ)) (o : Option ℕ)
    → IsThrottled interval (record { throttle = t; log = log })
    → IsThrottled interval (record { throttle = schedule interval t now o; log = log })
schedule-IsThrottled interval now t log none h = record {
  spaced = h.spaced;
  remembers = Remembers-same t (schedule interval t now none) log refl refl h.remembers;
  above = h.above;
  later = λ due last e k. ground (arith, rw k at e);
}
schedule-IsThrottled interval now t log (some due) h = h

pending-IsThrottled :
    (interval seq : ℕ) (s : Sending)
    → leb seq (max (or_zero s.throttle.sent_seq) (or_zero s.throttle.pending_seq)) ≡ false
    → IsThrottled interval s
    → IsThrottled interval
        (record { throttle = record s.throttle { pending_seq = some seq }; log = s.log })
pending-IsThrottled interval seq s new h = record {
  spaced = h.spaced;
  remembers =
      Remembers-same s.throttle (record s.throttle { pending_seq = some seq }) s.log refl refl
        h.remembers;
  above = λ p e. ground (arith, new, e);
  later = h.later;
}

Follows-log :
    (interval seq now due : ℕ) (s : Sending) (log : List (ℕ × ℕ))
    → IsThrottled interval s
    → Remembers s.throttle log
    → s.throttle.timer ≡ some due
    → s.throttle.pending_seq ≡ some seq
    → due ≤ now
    → Follows interval (seq, now) log
Follows-log interval seq now due s [] h m e k l = tt
Follows-log interval seq now due s (y ∷ log) h m e k l =
    (ground (arith, h.above seq k, m.0), omega (arith, h.later due y.1 e m.1, l))

flush-IsThrottled :
    (interval now due : ℕ) (s : Sending) (o : Option ℕ)
    → s.throttle.pending_seq ≡ o
    → s.throttle.timer ≡ some due
    → due ≤ now
    → IsThrottled interval s
    → IsThrottled interval (record {
      throttle = (flush_pending s.throttle now o).0;
      log = log_sent s.log now (flush_pending s.throttle now o).1;
    })
flush-IsThrottled interval now due s none e k l h = record {
  spaced = h.spaced;
  remembers =
      Remembers-same s.throttle (record s.throttle { timer = none }) s.log refl refl h.remembers;
  above = h.above;
  later = λ due last e k. cc;
}
flush-IsThrottled interval now due s (some seq) e k l h = record {
  spaced = (Follows-log interval seq now due s s.log h h.remembers k e l, h.spaced);
  remembers = (refl, refl);
  above = λ p e. cc;
  later = λ due last e k. cc;
}

run_timer-IsThrottled :
    (interval now : ℕ) (s : Sending) (o : Option ℕ)
    → s.throttle.timer ≡ o
    → IsThrottled interval s
    → IsThrottled interval (run_timer s now o)
unfolding flush
run_timer-IsThrottled interval now s none e h = h
run_timer-IsThrottled interval now s (some due) e h = elim (Bool-cases (leb due now)) [
  | inl l ↦
      rw l
        (flush-IsThrottled interval now due s s.throttle.pending_seq refl e (ground (arith, l)) h)
  | inr l ↦ rw l h
]

run_event-IsThrottled :
    (interval : ℕ) (s : Sending) (e : ThrottleEvent)
    → IsThrottled interval s
    → IsThrottled interval (run_event interval s e)
unfolding run_event request cancel flush
run_event-IsThrottled interval s (requested seq now) h =
    elim (Bool-cases
      (leb seq (max (or_zero s.throttle.sent_seq) (or_zero s.throttle.pending_seq)))) [
        | inl e ↦ rw e h
        | inr e ↦ rw e (
            schedule-IsThrottled interval now (record s.throttle { pending_seq = some seq }) s.log
              s.throttle.timer (pending-IsThrottled interval seq s e h))
      ]
run_event-IsThrottled interval s (timer_ran now) h =
    run_timer-IsThrottled interval now s s.throttle.timer refl h
run_event-IsThrottled interval s cancelled h = record {
  spaced = h.spaced;
  remembers =
      Remembers-same s.throttle (record s.throttle { pending_seq = none; timer = none }) s.log refl
        refl h.remembers;
  above = λ p e. cc;
  later = λ due last e k. cc;
}

-- Whatever is requested, whenever timers run and whatever is cancelled, the throttle sends ever
-- higher numbers, each at least the interval after the one before it.
pub run_events-IsThrottled :
    (interval : ℕ) (s : Sending) (es : List ThrottleEvent)
    → IsThrottled interval s
    → IsThrottled interval (run_events interval s es)
unfolding run_events
run_events-IsThrottled interval s [] h = h
run_events-IsThrottled interval s (e ∷ es) h =
    run_events-IsThrottled interval (run_event interval s e) es
      (run_event-IsThrottled interval s e h)
