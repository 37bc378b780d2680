-- ===== src/Calls/Lifecycle.antt =====
-- The life cycle of a call, over every sequence of statements of apps/api/src/db/calls.ts.
use videochat.Calls.Statements.{
  Statement, insert, accept, end_ringing, end_active, cancel_gone, caller_gone, callee_gone,
  resume_caller, resume_callee, expire_ringing, expire_active, exec, exec_all,
}
use videochat.Calls.Table.{
  ringing, active, ended, missed, cancelled, connection_lost, status_eq, CallRow, NewCall,
  insert_call, get_call, accept_where, accept_set, accept_call, end_set, end_where, end_call,
  gone_ringing, gone_caller, gone_callee, mark_caller_gone, mark_callee_gone, resume_caller_where,
  resume_callee_where, resume_caller_set, resume_callee_set, missed_where, lost_where,
}
use videochat.Prelude.{
  ◌==◌, is_null, Bool-cases, All, set_where, update, All-update, find-update, any-find, ℕ, ◌≡◌,
  refl, inl, inr, Bool, true, false, not, none, some, List, [], ◌∷◌, arith,
}

-- What holds of every row between two statements. The first field is the table's check constraint.
pub record IsValid (r : CallRow) : Type 0 where
  pub ended_has_reason : not (is_null r.end_reason) ≡ status_eq r.status ended
  pub ended_has_time : not (is_null r.ended_at) ≡ status_eq r.status ended
  pub active_has_callee : r.status ≡ active → is_null r.callee_connection_id ≡ false
  pub active_answered : r.status ≡ active → is_null r.answered_at ≡ false
  pub ringing_unanswered : r.status ≡ ringing → r.answered_at ≡ none
  pub silenced_unanswered : r.silenced ≡ true → r.answered_at ≡ none

-- How one row may change: it is about the same call between the same people, an ended call never
-- changes again, no call rings twice, and a silenced call is never answered.
pub record Evolves (r s : CallRow) : Type 0 where
  pub same_id : s.id ≡ r.id
  pub same_caller : s.caller_id ≡ r.caller_id
  pub same_callee : s.callee_id ≡ r.callee_id
  pub same_conversation : s.conversation_id ≡ r.conversation_id
  pub same_silenced : s.silenced ≡ r.silenced
  pub same_created : s.created_at ≡ r.created_at
  pub ended_fixed : r.status ≡ ended → s ≡ r
  pub rings_once : s.status ≡ ringing → r.status ≡ ringing
  pub silenced_not_answered : r.silenced ≡ true → s.status ≡ active → r.status ≡ active

Evolves-refl : (r : CallRow) → Evolves r r
Evolves-refl r = ground arith

Evolves-trans : {r s t : CallRow} → Evolves r s → Evolves s t → Evolves r t
Evolves-trans h k = ground arith

abbrev TableEvolves : List CallRow → List CallRow → Type 0
TableEvolves calls calls' =
    (id : ℕ) (r : CallRow)
    → get_call calls id ≡ some r
    → (s : CallRow) × (get_call calls' id ≡ some s) × Evolves r s

TableEvolves-trans : (a b c : List CallRow) → TableEvolves a b → TableEvolves b c → TableEvolves a c
TableEvolves-trans a b c h k id r e =
    let (s, es, rs) = h id r e in let (t, et, st) = k id s es in (t, et, Evolves-trans rs st)

set_where-Evolves :
    (p : CallRow → Bool) (f : CallRow → CallRow)
    → ((r : CallRow) → p r ≡ true → Evolves r (f r))
    → (r : CallRow) → Evolves r (set_where p f r)
set_where-Evolves p f h r = elim (Bool-cases (p r)) [
  | inl e ↦ rw e (h r e)
  | inr e ↦ rw e (Evolves-refl r)
]

update-TableEvolves :
    (p : CallRow → Bool) (f : CallRow → CallRow) (calls : List CallRow)
    → ((r : CallRow) → p r ≡ true → Evolves r (f r))
    → ((r : CallRow) → (f r).id ≡ r.id)
    → TableEvolves calls (update p f calls)
unfolding get_call
update-TableEvolves p f calls h same id r e = (
  set_where p f r,
  rw (find-update (λ x. x.id == id) p f calls (λ x. rw (same x))) (rw e),
  set_where-Evolves p f h r,
)

insert_call-TableEvolves :
    (calls : List CallRow) (c : NewCall) (now : ℕ) → TableEvolves calls (insert_call calls c now).0
unfolding insert_call get_call
insert_call-TableEvolves calls c now id r e =
    (r, ground (arith, any-find (λ x. x.id == c.id) calls), Evolves-refl r)

-- Any statement, on any table, moves every call that is there along its life cycle.
exec-TableEvolves : (calls : List CallRow) (s : Statement) → TableEvolves calls (exec calls s)
unfolding exec accept_call end_call
exec-TableEvolves calls (insert c now) = insert_call-TableEvolves calls c now
exec-TableEvolves calls (accept id callee connection now) =
    update-TableEvolves (accept_where id callee) (accept_set connection now) calls
      (λ r h. ground arith) (λ r. refl)
exec-TableEvolves calls (end_ringing id reason now) =
    update-TableEvolves (end_where id (ringing ∷ [])) (end_set reason now) calls
      (λ r h. ground arith) (λ r. refl)
exec-TableEvolves calls (end_active id reason now) =
    update-TableEvolves (end_where id (active ∷ [])) (end_set reason now) calls
      (λ r h. ground arith) (λ r. refl)
exec-TableEvolves calls (cancel_gone connection now) =
    update-TableEvolves (gone_ringing connection) (end_set cancelled now) calls
      (λ r h. ground arith) (λ r. refl)
exec-TableEvolves calls (caller_gone connection now) =
    update-TableEvolves (gone_caller connection) (mark_caller_gone now) calls (λ r h. ground arith)
      (λ r. refl)
exec-TableEvolves calls (callee_gone connection now) =
    update-TableEvolves (gone_callee connection) (mark_callee_gone now) calls (λ r h. ground arith)
      (λ r. refl)
exec-TableEvolves calls (resume_caller id user connection) =
    update-TableEvolves (resume_caller_where id user) (resume_caller_set connection) calls
      (λ r h. ground arith) (λ r. refl)
exec-TableEvolves calls (resume_callee id user connection) =
    update-TableEvolves (resume_callee_where id user) (resume_callee_set connection) calls
      (λ r h. ground arith) (λ r. refl)
exec-TableEvolves calls (expire_ringing cutoff now) =
    update-TableEvolves (missed_where cutoff) (end_set missed now) calls (λ r h. ground arith)
      (λ r. refl)
exec-TableEvolves calls (expire_active cutoff now) =
    update-TableEvolves (lost_where cutoff) (end_set connection_lost now) calls
      (λ r h. ground arith) (λ r. refl)

-- Whatever statements run, a call that is in the table stays in it, and moves only along the life
-- cycle: its people and its silence never change, it rings only if it rang before, a silenced call
-- is not answered, and a call that has ended is the same row for ever.
pub exec_all-Evolves :
    (calls : List CallRow) (ss : List Statement) (id : ℕ) (r : CallRow)
    → get_call calls id ≡ some r
    → (s : CallRow) × (get_call (exec_all calls ss) id ≡ some s) × Evolves r s
unfolding exec_all
exec_all-Evolves calls [] id r e = (r, e, Evolves-refl r)
exec_all-Evolves calls (s ∷ ss) id r e =
    TableEvolves-trans calls (exec calls s) _ (exec-TableEvolves calls s)
      (exec_all-Evolves (exec calls s) ss) id r e

insert_call-IsValid :
    (calls : List CallRow) (c : NewCall) (now : ℕ)
    → All IsValid calls
    → All IsValid (insert_call calls c now).0
unfolding insert_call
insert_call-IsValid calls c now h = ground arith

exec-IsValid :
    (calls : List CallRow) (s : Statement) → All IsValid calls → All IsValid (exec calls s)
unfolding exec accept_call end_call
exec-IsValid calls (insert c now) h = insert_call-IsValid calls c now h
exec-IsValid calls (accept id callee connection now) h =
    All-update IsValid (accept_where id callee) (accept_set connection now) calls
      (λ r e v. ground arith) h
exec-IsValid calls (end_ringing id reason now) h =
    All-update IsValid (end_where id (ringing ∷ [])) (end_set reason now) calls
      (λ r e v. ground arith) h
exec-IsValid calls (end_active id reason now) h =
    All-update IsValid (end_where id (active ∷ [])) (end_set reason now) calls
      (λ r e v. ground arith) h
exec-IsValid calls (cancel_gone connection now) h =
    All-update IsValid (gone_ringing connection) (end_set cancelled now) calls
      (λ r e v. ground arith) h
exec-IsValid calls (caller_gone connection now) h =
    All-update IsValid (gone_caller connection) (mark_caller_gone now) calls (λ r e v. ground arith)
      h
exec-IsValid calls (callee_gone connection now) h =
    All-update IsValid (gone_callee connection) (mark_callee_gone now) calls (λ r e v. ground arith)
      h
exec-IsValid calls (resume_caller id user connection) h =
    All-update IsValid (resume_caller_where id user) (resume_caller_set connection) calls
      (λ r e v. ground arith) h
exec-IsValid calls (resume_callee id user connection) h =
    All-update IsValid (resume_callee_where id user) (resume_callee_set connection) calls
      (λ r e v. ground arith) h
exec-IsValid calls (expire_ringing cutoff now) h =
    All-update IsValid (missed_where cutoff) (end_set missed now) calls (λ r e v. ground arith) h
exec-IsValid calls (expire_active cutoff now) h =
    All-update IsValid (lost_where cutoff) (end_set connection_lost now) calls
      (λ r e v. ground arith) h

-- Every row of every table that statements make from a valid one is valid: it has an end reason and
-- an end time exactly when it has ended, a callee's connection and an answer time while it is
-- active, and no answer time while it rings or if it is silenced.
pub exec_all-IsValid :
    (calls : List CallRow) (ss : List Statement)
    → All IsValid calls
    → All IsValid (exec_all calls ss)
unfolding exec_all
exec_all-IsValid calls [] h = h
exec_all-IsValid calls (s ∷ ss) h = exec_all-IsValid (exec calls s) ss (exec-IsValid calls s h)
