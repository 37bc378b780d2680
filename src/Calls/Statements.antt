-- ===== src/Calls/Statements.antt =====
-- The statements of apps/api/src/db/calls.ts as data, one constructor for each INSERT and each
-- UPDATE. None of the functions there opens a transaction, so each of its statements commits by
-- itself: `handleConnectionGone` is three of them, `resumeCall` at most two, `endExpiredCalls` two.
-- Whatever handlers run on whatever API nodes, the `calls` table goes through one sequence of such
-- statements. The service calls `endCall` with the status it ends from written out, one of two
-- lists. The cutoffs of `endExpiredCalls` are computed before its first statement, from one clock.
use videochat.Calls.Table.{
  ringing, active, CallEndReason, missed, cancelled, connection_lost, CallRow, NewCall, insert_call,
  accept_call, end_set, end_call, gone_ringing, gone_caller, gone_callee, mark_caller_gone,
  mark_callee_gone, resume_caller_where, resume_callee_where, resume_caller_set, resume_callee_set,
  missed_where, lost_where,
}
use videochat.Prelude.{rows_of, update, returning, ℕ, List, [], ◌∷◌, ◌++◌}

pub data Statement : Type 0 where
  insert : NewCall → ℕ → Statement
  accept : ℕ → ℕ → ℕ → ℕ → Statement
  end_ringing : ℕ → CallEndReason → ℕ → Statement
  end_active : ℕ → CallEndReason → ℕ → Statement
  cancel_gone : ℕ → ℕ → Statement
  caller_gone : ℕ → ℕ → Statement
  callee_gone : ℕ → ℕ → Statement
  resume_caller : ℕ → ℕ → ℕ → Statement
  resume_callee : ℕ → ℕ → ℕ → Statement
  expire_ringing : ℕ → ℕ → Statement
  expire_active : ℕ → ℕ → Statement

-- The table after a statement.
unfoldable pub exec : List CallRow → Statement → List CallRow
exec calls (insert c now) = (insert_call calls c now).0
exec calls (accept id callee connection now) = (accept_call calls id callee connection now).0
exec calls (end_ringing id reason now) = (end_call calls id reason (ringing ∷ []) now).0
exec calls (end_active id reason now) = (end_call calls id reason (active ∷ []) now).0
exec calls (cancel_gone connection now) =
    update (gone_ringing connection) (end_set cancelled now) calls
exec calls (caller_gone connection now) =
    update (gone_caller connection) (mark_caller_gone now) calls
exec calls (callee_gone connection now) =
    update (gone_callee connection) (mark_callee_gone now) calls
exec calls (resume_caller id user connection) =
    update (resume_caller_where id user) (resume_caller_set connection) calls
exec calls (resume_callee id user connection) =
    update (resume_callee_where id user) (resume_callee_set connection) calls
exec calls (expire_ringing cutoff now) = update (missed_where cutoff) (end_set missed now) calls
exec calls (expire_active cutoff now) =
    update (lost_where cutoff) (end_set connection_lost now) calls

-- The rows that a statement hands to its caller as ended: whoever gets one announces the end.
unfoldable pub won : List CallRow → Statement → List CallRow
won calls (end_ringing id reason now) = rows_of (end_call calls id reason (ringing ∷ []) now).1
won calls (end_active id reason now) = rows_of (end_call calls id reason (active ∷ []) now).1
won calls (cancel_gone connection now) =
    returning (gone_ringing connection) (end_set cancelled now) calls
won calls (expire_ringing cutoff now) = returning (missed_where cutoff) (end_set missed now) calls
won calls (expire_active cutoff now) =
    returning (lost_where cutoff) (end_set connection_lost now) calls
won calls _ = []

unfoldable pub exec_all : List CallRow → List Statement → List CallRow
exec_all calls [] = calls
exec_all calls (s ∷ ss) = exec_all (exec calls s) ss

-- All rows handed out as ended along a sequence of statements.
unfoldable pub won_all : List CallRow → List Statement → List CallRow
won_all calls [] = []
won_all calls (s ∷ ss) = won calls s ++ won_all (exec calls s) ss
