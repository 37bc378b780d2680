-- ===== src/Engine/Waiting.antt =====
-- A call of CallEngine (apps/web/src/features/calls/CallEngine.ts) that waits for its reconnect
-- timer, through what the user and the other side do.
use videochat.Engine.State.{
  Direction, placed, received, CallPhase, outgoing, incoming, connecting, active, reconnecting,
  ended, CallEndCause, cancelled, declined, completed, answered_elsewhere, CallSnapshot, Signal,
  offer, answer, ice, CallEngine, is_ended, is_incoming, is_outgoing, is_reconnecting, is_busy,
  update,
}
use videochat.Engine.Peer.{finish, run_task, may_start, start_waiting}
use videochat.Engine.Operations.{
  accept_found, decline_found, decline, hang_up_in, hang_up_found, dismiss_found, connected,
}
use videochat.Engine.Running.{accepted_by, accepted_found, Event, connection_changes}
use videochat.Engine.Phases.{phase_of, either-holds, either_out-holds}
use videochat.Prelude.{
  ◌==◌, Option-cases, ℕ, zero, suc, ◌≡◌, inl, inr, Bool, true, false, not, ◌&&◌, ◌||◌, Option, none,
  some, List, [], ◌∷◌, arith,
}

abbrev pub is_reconnecting_in : Option CallPhase → Bool
is_reconnecting_in none = false
is_reconnecting_in (some phase) = is_reconnecting phase

-- Reconnecting, until the time.
abbrev waits_for : Option CallPhase → Option ℕ → ℕ → Bool
waits_for (some reconnecting) (some due) time = due == time
waits_for _ _ time = false

abbrev pub waits_until : ℕ → CallEngine → Bool
waits_until time e = waits_for (phase_of e.snap) e.reconnect_timer time

-- Reconnecting until the time still, or over.
abbrev pub waits_or_ended : ℕ → CallEngine → Bool
waits_or_ended time e = waits_until time e || not (is_busy e)

abbrev pub is_connected : Event → Bool
is_connected (connection_changes connected) = true
is_connected _ = false

pub finish-ended :
    (e : CallEngine) (cause : CallEndCause) (now : ℕ) → is_busy (finish e cause now).0 ≡ false
unfolding finish
finish-ended e cause now = elim (Option-cases e.snap) [
  | inl eq ↦ ground (arith, eq)
  | inr (s, eq) ↦ ground (arith, eq)
]

module _ (time : ℕ) where
  pub finish-over :
      (e : CallEngine) (cause : CallEndCause) (now : ℕ)
      → waits_or_ended time (finish e cause now).0 ≡ true
  finish-over e cause now = ground (arith, finish-ended e cause now)

  pub still : (e : CallEngine) → waits_until time e ≡ true → waits_or_ended time e ≡ true
  still e h = ground (arith, h)

  pub update-still :
      (f : CallSnapshot → CallSnapshot) (e : CallEngine)
      → ((s : CallSnapshot) → (f s).phase ≡ s.phase)
      → waits_until time e ≡ true
      → waits_or_ended time (update f e) ≡ true
  update-still f e same h = elim (Option-cases e.snap) [
    | inl eq ↦ ground (arith, eq, h)
    | inr (s, eq) ↦ ground (arith, eq, h, same s)
  ]

  pub decline-still :
      (e : CallEngine) (o : Option CallSnapshot) (now : ℕ)
      → waits_until time e ≡ true
      → waits_or_ended time (decline_found e o now).0 ≡ true
  decline-still e none now h = still e h
  decline-still e (some s) now h =
      either_out-holds (waits_or_ended time) (is_incoming s.phase) _ _
        (λ b. finish-over e declined now) (still e h)

  hang_up_in-still :
      (e : CallEngine) (s : CallSnapshot) (phase : CallPhase) (now : ℕ)
      → waits_until time e ≡ true
      → waits_or_ended time (hang_up_in e s phase now).0 ≡ true
  unfolding decline
  hang_up_in-still e s ended now h = still e h
  hang_up_in-still e s incoming now h = decline-still e e.snap now h
  hang_up_in-still e s outgoing now h = finish-over e cancelled now
  hang_up_in-still e s connecting now h = finish-over e completed now
  hang_up_in-still e s active now h = finish-over e completed now
  hang_up_in-still e s reconnecting now h = finish-over e completed now

  pub hang_up-still :
      (e : CallEngine) (o : Option CallSnapshot) (now : ℕ)
      → waits_until time e ≡ true
      → waits_or_ended time (hang_up_found e o now).0 ≡ true
  hang_up-still e none now h = still e h
  hang_up-still e (some s) now h = hang_up_in-still e s s.phase now h

  pub accept-still :
      (e : CallEngine) (o : Option CallSnapshot) (has_camera : Bool)
      → e.snap ≡ o
      → waits_until time e ≡ true
      → waits_or_ended time (accept_found e o has_camera).0 ≡ true
  accept-still e none has_camera eq h = still e h
  accept-still e (some s) has_camera eq h =
      either_out-holds (waits_or_ended time) (is_incoming s.phase) _ _
        (λ b. absurd (ground (arith, eq, h, b))) (still e h)

  pub dismiss-still :
      (e : CallEngine) (o : Option CallSnapshot)
      → e.snap ≡ o
      → waits_until time e ≡ true
      → waits_or_ended time (dismiss_found e o) ≡ true
  dismiss-still e none eq h = still e h
  dismiss-still e (some s) eq h =
      either-holds (waits_or_ended time) (is_ended s.phase) _ _
        (λ b. absurd (ground (arith, eq, h, b))) (still e h)

  accepted_by-still :
      (e : CallEngine) (s : CallSnapshot) (d : Direction) (own : Bool) (now : ℕ)
      → e.snap ≡ some s
      → waits_until time e ≡ true
      → waits_or_ended time (accepted_by e s d own now).0 ≡ true
  accepted_by-still e s received true now eq h = still e h
  accepted_by-still e s received false now eq h = finish-over e answered_elsewhere now
  accepted_by-still e s placed own now eq h =
      either_out-holds (waits_or_ended time) (is_outgoing s.phase) _ _
        (λ b. absurd (ground (arith, eq, h, b))) (still e h)

  pub accepted-still :
      (e : CallEngine) (o : Option CallSnapshot) (own : Bool) (now : ℕ)
      → e.snap ≡ o
      → waits_until time e ≡ true
      → waits_or_ended time (accepted_found e o own now).0 ≡ true
  accepted-still e none own now eq h = still e h
  accepted-still e (some s) own now eq h = accepted_by-still e s s.direction own now eq h

  pub start_waiting-still :
      (e : CallEngine) (n : ℕ)
      → waits_until time e ≡ true
      → waits_or_ended time (start_waiting e n).0 ≡ true
  start_waiting-still e zero h = still e h
  start_waiting-still e (suc n) h =
      let f : CallEngine = record e { starting = n } in
      either_out-holds (waits_or_ended time) (may_start f) _ _ (λ b. still e h) (still e h)

  pub run_task-still :
      (e : CallEngine) (stable : Bool) (sdp : ℕ) (tasks : List Signal)
      → waits_until time e ≡ true
      → waits_or_ended time (run_task e stable sdp tasks).0 ≡ true
  run_task-still e stable sdp [] h = still e h
  run_task-still e stable sdp (ice candidate ∷ rest) h =
      either_out-holds (waits_or_ended time) e.pc _ _ (λ b. still e h) (still e h)
  run_task-still e stable sdp (answer description ∷ rest) h =
      either_out-holds (waits_or_ended time) e.pc _ _ (λ b. still e h) (still e h)
  run_task-still e stable sdp (offer description ∷ rest) h =
      either_out-holds (waits_or_ended time) e.pc _ _
        (λ b.
          either_out-holds (waits_or_ended time) (not e.polite && (e.making_offer || not stable)) _
            _ (λ c. still e h) (still e h))
        (still e h)
