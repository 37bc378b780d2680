-- ===== src/Engine/Notices.antt =====
-- The messages by which CallEngine (apps/web/src/features/calls/CallEngine.ts) begins calls and
-- ends them, and the methods that send them.
use videochat.Engine.State.{
  CallPhase, outgoing, incoming, connecting, active, reconnecting, ended, CallEndCause, cancelled,
  declined, completed, connection_lost, CallSnapshot, Effect, send_invite, send_ringing,
  send_decline, send_cancel, send_end, CallEngine, Out, quietly, after, is_ended, is_incoming,
  is_reconnecting, is_current, update,
}
use videochat.Engine.Peer.{finish_found, finish}
use videochat.Engine.Operations.{
  accept_found, decline_found, decline, hang_up_in, hang_up_found, dismiss_found, give_up_found,
}
use videochat.Prelude.{
  ◌==◌, if◌then◌else◌, Option-cases, count, ℕ, ◌+◌, ◌≤◌, ◌≡◌, refl, inl, inr, Bool, true, false,
  Option, none, some, [], ◌∷◌, arith,
}

-- The messages that end a call: `call.decline`, `call.cancel` and `call.end`.
abbrev pub is_ending : ℕ → Effect → Bool
is_ending call_id (send_decline c) = c == call_id
is_ending call_id (send_cancel c) = c == call_id
is_ending call_id (send_end c) = c == call_id
is_ending call_id _ = false

-- The messages that begin one here: `call.invite`, and `call.ringing` for a call from outside.
abbrev pub is_beginning : ℕ → Effect → Bool
is_beginning call_id (send_invite c conversation_id media) = c == call_id
is_beginning call_id (send_ringing c) = c == call_id
is_beginning call_id _ = false

abbrev pub one_if : Bool → ℕ
one_if true = 1
one_if false = 0

module _ (c : ℕ) where
  -- The messages that end the call, and the one that may follow while it goes on, are paid for by
  -- those that begin it.
  abbrev pub Pays : CallEngine → Out → Type 0
  Pays e o =
      count (is_ending c) o.1 + one_if (is_current o.0 c)
      ≤ count (is_beginning c) o.1 + one_if (is_current e c)

  pub quiet-Pays : (e : CallEngine) → Pays e (quietly e)
  quiet-Pays e = omega arith

  pub either-Pays :
      (e : CallEngine) (b : Bool) (x y : Out)
      → (b ≡ true → Pays e x)
      → (b ≡ false → Pays e y)
      → Pays e (if b then x else y)
  either-Pays e true x y hx hy = hx refl
  either-Pays e false x y hx hy = hy refl

  finish-quiet :
      (e : CallEngine) (o : Option CallSnapshot) (cause : CallEndCause) (now : ℕ)
      → count (is_ending c) (finish_found e o cause now).1 ≡ 0
  finish-quiet e none cause now = refl
  finish-quiet e (some s) cause now = ground arith

  pub finish-over :
      (e : CallEngine) (o : Option CallSnapshot) (cause : CallEndCause) (now : ℕ)
      → e.snap ≡ o
      → is_current (finish_found e o cause now).0 c ≡ false
  finish-over e none cause now eq = ground (arith, eq)
  finish-over e (some s) cause now eq = ground (arith, eq)

  pub finish-Pays : (e : CallEngine) (cause : CallEndCause) (now : ℕ) → Pays e (finish e cause now)
  unfolding finish
  finish-Pays e cause now =
      rw (finish-over e e.snap cause now refl) (omega (arith, finish-quiet e e.snap cause now))

  -- Ending the call that goes on, with its message.
  ended-Pays :
      (e : CallEngine) (s : CallSnapshot) (message : Effect) (cause : CallEndCause) (now : ℕ)
      → e.snap ≡ some s
      → is_ended s.phase ≡ false
      → is_ending c message ≡ (s.call_id == c)
      → is_beginning c message ≡ false
      → Pays e (after (message ∷ []) (finish e cause now))
  unfolding finish
  ended-Pays e s message cause now eq going end_ begin = ground (
    arith,
    eq,
    going,
    end_,
    begin,
    finish-quiet e e.snap cause now,
    finish-over e e.snap cause now refl,
  )

  pub decline-Pays :
      (e : CallEngine) (o : Option CallSnapshot) (now : ℕ)
      → e.snap ≡ o
      → Pays e (decline_found e o now)
  decline-Pays e none now eq = quiet-Pays e
  decline-Pays e (some s) now eq =
      either-Pays e (is_incoming s.phase) _ _
        (λ b. ended-Pays e s (send_decline s.call_id) declined now eq (ground (arith, b)) refl refl)
        (λ b. quiet-Pays e)

  hang_up_in-Pays :
      (e : CallEngine) (s : CallSnapshot) (phase : CallPhase) (now : ℕ)
      → e.snap ≡ some s
      → s.phase ≡ phase
      → Pays e (hang_up_in e s phase now)
  unfolding decline
  hang_up_in-Pays e s ended now eq p = quiet-Pays e
  hang_up_in-Pays e s incoming now eq p = decline-Pays e e.snap now refl
  hang_up_in-Pays e s outgoing now eq p =
      ended-Pays e s (send_cancel s.call_id) cancelled now eq (rw p refl) refl refl
  hang_up_in-Pays e s connecting now eq p =
      ended-Pays e s (send_end s.call_id) completed now eq (rw p refl) refl refl
  hang_up_in-Pays e s active now eq p =
      ended-Pays e s (send_end s.call_id) completed now eq (rw p refl) refl refl
  hang_up_in-Pays e s reconnecting now eq p =
      ended-Pays e s (send_end s.call_id) completed now eq (rw p refl) refl refl

  pub hang_up-Pays :
      (e : CallEngine) (o : Option CallSnapshot) (now : ℕ)
      → e.snap ≡ o
      → Pays e (hang_up_found e o now)
  hang_up-Pays e none now eq = quiet-Pays e
  hang_up-Pays e (some s) now eq = hang_up_in-Pays e s s.phase now eq refl

  pub give_up-Pays :
      (e : CallEngine) (o : Option CallSnapshot) (now : ℕ)
      → e.snap ≡ o
      → Pays e (give_up_found e o now)
  give_up-Pays e none now eq = quiet-Pays e
  give_up-Pays e (some s) now eq =
      either-Pays e (is_reconnecting s.phase) _ _
        (λ b.
          ended-Pays e s (send_end s.call_id) connection_lost now eq (ground (arith, b)) refl refl)
        (λ b. quiet-Pays e)

  -- A method that leaves which call goes on, and sends no message that begins or ends one.
  pub accept-Pays :
      (e : CallEngine) (o : Option CallSnapshot) (has_camera : Bool)
      → e.snap ≡ o
      → Pays e (accept_found e o has_camera)
  accept-Pays e none has_camera eq = omega arith
  accept-Pays e (some s) has_camera eq =
      either-Pays e (is_incoming s.phase) _ _ (λ b. ground (arith, eq, b)) (λ b. omega arith)

  pub dismiss-Pays :
      (e : CallEngine) (o : Option CallSnapshot) → e.snap ≡ o → Pays e (quietly (dismiss_found e o))
  dismiss-Pays e none eq = quiet-Pays e
  dismiss-Pays e (some s) eq = ground (arith, eq)

  pub update-Pays :
      (f : CallSnapshot → CallSnapshot) (e : CallEngine)
      → ((s : CallSnapshot) → (f s).phase ≡ s.phase)
      → ((s : CallSnapshot) → (f s).call_id ≡ s.call_id)
      → is_current (update f e) c ≡ is_current e c
  update-Pays f e same_phase same_id = elim (Option-cases e.snap) [
    | inl eq ↦ ground (arith, eq)
    | inr (s, eq) ↦ ground (arith, eq, same_phase s, same_id s)
  ]
