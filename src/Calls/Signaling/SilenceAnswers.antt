-- ===== src/Calls/Signaling/SilenceAnswers.antt =====
-- The handlers of CallSignalingService for a call that exists, and what they send about a silenced call.
use videochat.Calls.Silenced.{IsSilenced, Silenced, Silenced-exec_all}
use videochat.Calls.Statements.{resume_caller, exec, exec_all}
use videochat.Calls.Signaling.Silence.{
  AllSpare, Quiet, Quiet-nothing, Quiet-if, Silenced-found, Quiet-end_call,
}
use videochat.Calls.Signaling.Answer.{
  lost_race, lost_race_found, accept_result, hang_up_row, hang_up_found, to_peer, not_resumed,
  not_resumed_found, resume_result,
}
use videochat.Calls.Signaling.Protocol.{Action}
use videochat.Calls.Table.{
  CallStatus, ringing, active, ended, cancelled, declined, completed, status_eq, CallRow, get_call,
  accept_where, accept_set, accept_call, resume_caller_where, resume_callee_where,
  resume_caller_set, resume_callee_set, resume_as_callee, resume_call,
}
use videochat.Prelude.{
  head?, returning, All-returning, All-head?, ℕ, ◌≡◌, refl, ◌≢◌, Bool, true, Option, none, some,
  List, [], ◌∷◌, arith,
}

module _ (k callee : ℕ) where
  pub Quiet-hang_up :
      (calls : List CallRow) (now user : ℕ) (action : Action) (call : CallRow) (status : CallStatus)
      → Silenced k callee calls
      → Quiet k callee (hang_up_row calls now user action call status)
  unfolding hang_up_row
  Quiet-hang_up calls now user action call ringing h =
      Quiet-if k callee _ _ _ (Quiet-end_call k callee calls call.id cancelled (ringing ∷ []) now h)
        (Quiet-if k callee _ _ _
          (Quiet-end_call k callee calls call.id declined (ringing ∷ []) now h)
          (Quiet-nothing k callee calls))
  Quiet-hang_up calls now user action call active h =
      Quiet-if k callee _ _ _ (Quiet-end_call k callee calls call.id completed (active ∷ []) now h)
        (Quiet-nothing k callee calls)
  Quiet-hang_up calls now user action call ended h = Quiet-nothing k callee calls

  pub Quiet-found :
      (calls : List CallRow) (now user : ℕ) (action : Action) (o : Option CallRow)
      → Silenced k callee calls
      → Quiet k callee (hang_up_found calls now user action o)
  unfolding hang_up_found
  Quiet-found calls now user action none h = Quiet-nothing k callee calls
  Quiet-found calls now user action (some call) h =
      Quiet-if k callee _ _ _ (Quiet-hang_up calls now user action call call.status h)
        (Quiet-nothing k callee calls)

  Spares-lost_race :
      (user connection : ℕ) (o : Option CallRow)
      → ((call : CallRow) → o ≡ some call → IsSilenced k callee call)
      → AllSpare k callee (lost_race_found user connection o)
  unfolding lost_race_found lost_race
  Spares-lost_race user connection none h = tt
  Spares-lost_race user connection (some call) h = ground (arith, h call refl)

  -- The row that a device answered was not silenced.
  pub Quiet-accept :
      (calls : List CallRow) (user connection id : ℕ) (o : Option CallRow)
      → Silenced k callee calls
      → ((call : CallRow) → o ≡ some call → call.id ≢ k)
      → Quiet k callee (accept_result user connection id (calls, o))
  unfolding accept_result
  Quiet-accept calls user connection id (some call) s h = record {
    spares = ground (arith, h call refl);
  }
  Quiet-accept calls user connection id none s h = record {
    spares =
        Spares-lost_race user connection (get_call calls id)
          (λ call e. (Silenced-found k callee calls id call s e).0);
  }

  pub accepted-ne :
      (calls : List CallRow) (id user connection now : ℕ) (call : CallRow)
      → Silenced k callee calls
      → (accept_call calls id user connection now).1 ≡ some call
      → call.id ≢ k
  unfolding accept_call
  accepted-ne calls id user connection now call h e =
      All-head? (λ (r : CallRow). r.id ≢ k)
        (returning (accept_where id user) (accept_set connection now) calls) call e
        (All-returning (IsSilenced k callee) (λ (r : CallRow). r.id ≢ k) (accept_where id user)
          (accept_set connection now) calls (λ r w s. ground arith) h.1)

  Spares-not_resumed :
      (connection : ℕ) (o : Option CallRow) → AllSpare k callee (not_resumed_found connection o)
  unfolding not_resumed_found not_resumed
  Spares-not_resumed connection none = tt
  Spares-not_resumed connection (some call) = ground arith

  -- The row that a participant resumed was active.
  pub Quiet-resume :
      (calls : List CallRow) (connection id : ℕ) (o : Option CallRow)
      → ((call : CallRow) → o ≡ some call → call.id ≢ k)
      → Quiet k callee (resume_result connection id (calls, o))
  unfolding resume_result to_peer
  Quiet-resume calls connection id (some call) h = record { spares = ground (arith, h call refl) }
  Quiet-resume calls connection id none h = record {
    spares = Spares-not_resumed connection (get_call calls id);
  }

  resumed_row-ne :
      (p : CallRow → Bool) (f : CallRow → CallRow) (calls : List CallRow) (call : CallRow)
      → ((r : CallRow) → p r ≡ true → status_eq r.status active ≡ true)
      → ((r : CallRow) → (f r).id ≡ r.id)
      → Silenced k callee calls
      → head? (returning p f calls) ≡ some call
      → call.id ≢ k
  resumed_row-ne p f calls call act same h e =
      All-head? (λ (r : CallRow). r.id ≢ k) (returning p f calls) call e
        (All-returning (IsSilenced k callee) (λ (r : CallRow). r.id ≢ k) p f calls
          (λ r w s. ground (arith, act r w, same r)) h.1)

  resumed_as_callee-ne :
      (calls : List CallRow) (id user connection : ℕ) (o : Option CallRow) (call : CallRow)
      → ((r : CallRow) → o ≡ some r → r.id ≢ k)
      → Silenced k callee calls
      → (resume_as_callee calls id user connection o).1 ≡ some call
      → call.id ≢ k
  resumed_as_callee-ne calls id user connection (some r) call first h e = first call e
  resumed_as_callee-ne calls id user connection none call first h e =
      resumed_row-ne (resume_callee_where id user) (resume_callee_set connection) calls call
        (λ r w. ground arith) (λ r. refl) h e

  pub resumed-ne :
      (calls : List CallRow) (id user connection : ℕ) (call : CallRow)
      → Silenced k callee calls
      → (resume_call calls id user connection).1 ≡ some call
      → call.id ≢ k
  unfolding resume_call exec exec_all
  resumed-ne calls id user connection call h e =
      resumed_as_callee-ne _ id user connection _ call
        (λ r.
          resumed_row-ne (resume_caller_where id user) (resume_caller_set connection) calls r
            (λ r w. ground arith) (λ r. refl) h)
        (Silenced-exec_all k callee calls (resume_caller id user connection ∷ []) h) e
