-- ===== src/Calls/Silenced.antt =====
-- Calls that were silenced when they were placed, under every statement of apps/api/src/db/calls.ts.
use videochat.Calls.Races.{has_id}
use videochat.Calls.Statements.{
  Statement, insert, accept, end_ringing, end_active, cancel_gone, caller_gone, callee_gone,
  resume_caller, resume_callee, expire_ringing, expire_active, exec, exec_all,
}
use videochat.Calls.Table.{
  active, missed, cancelled, connection_lost, status_eq, CallRow, insert_call, accept_set,
  accept_call, end_set, end_call, mark_caller_gone, mark_callee_gone, resume_caller_set,
  resume_callee_set,
}
use videochat.Prelude.{
  any, All, update, All-update, any-update, ℕ, ◌≡◌, refl, ◌∙◌, ◌≢◌, Bool, true, false, List, [],
  ◌∷◌, arith,
}

abbrev pub IsSilenced : ℕ → ℕ → CallRow → Type 0
IsSilenced k callee r =
    r.id ≡ k → (r.silenced ≡ true) × (r.caller_id ≢ callee) × (status_eq r.status active ≡ false)

module _ (k callee : ℕ) where
  abbrev pub Silenced : List CallRow → Type 0
  Silenced calls = (any (has_id k) calls ≡ true) × All (IsSilenced k callee) calls

  Silenced-update :
      (p : CallRow → Bool) (f : CallRow → CallRow) (calls : List CallRow)
      → ((r : CallRow) → (f r).id ≡ r.id)
      → ((r : CallRow) → p r ≡ true → IsSilenced k callee r → IsSilenced k callee (f r))
      → Silenced calls
      → Silenced (update p f calls)
  Silenced-update p f calls same keep h = (
    any-update (has_id k) p f calls (λ r. rw (same r)) ∙ h.0,
    All-update (IsSilenced k callee) p f calls keep h.1,
  )

  -- Every statement leaves the call silenced.
  Silenced-exec : (calls : List CallRow) (s : Statement) → Silenced calls → Silenced (exec calls s)
  unfolding exec accept_call end_call
  Silenced-exec calls (insert c now) h = unfold insert_call in ground arith
  Silenced-exec calls (accept id user connection now) h =
      Silenced-update _ (accept_set connection now) calls (λ r. refl) (λ r e s. ground arith) h
  Silenced-exec calls (end_ringing id reason now) h =
      Silenced-update _ (end_set reason now) calls (λ r. refl) (λ r e s. ground arith) h
  Silenced-exec calls (end_active id reason now) h =
      Silenced-update _ (end_set reason now) calls (λ r. refl) (λ r e s. ground arith) h
  Silenced-exec calls (cancel_gone connection now) h =
      Silenced-update _ (end_set cancelled now) calls (λ r. refl) (λ r e s. ground arith) h
  Silenced-exec calls (caller_gone connection now) h =
      Silenced-update _ (mark_caller_gone now) calls (λ r. refl) (λ r e s. ground arith) h
  Silenced-exec calls (callee_gone connection now) h =
      Silenced-update _ (mark_callee_gone now) calls (λ r. refl) (λ r e s. ground arith) h
  Silenced-exec calls (resume_caller id user connection) h =
      Silenced-update _ (resume_caller_set connection) calls (λ r. refl) (λ r e s. ground arith) h
  Silenced-exec calls (resume_callee id user connection) h =
      Silenced-update _ (resume_callee_set connection) calls (λ r. refl) (λ r e s. ground arith) h
  Silenced-exec calls (expire_ringing cutoff now) h =
      Silenced-update _ (end_set missed now) calls (λ r. refl) (λ r e s. ground arith) h
  Silenced-exec calls (expire_active cutoff now) h =
      Silenced-update _ (end_set connection_lost now) calls (λ r. refl) (λ r e s. ground arith) h

  pub Silenced-exec_all :
      (calls : List CallRow) (ss : List Statement) → Silenced calls → Silenced (exec_all calls ss)
  unfolding exec_all
  Silenced-exec_all calls [] h = h
  Silenced-exec_all calls (s ∷ ss) h = Silenced-exec_all (exec calls s) ss (Silenced-exec calls s h)
