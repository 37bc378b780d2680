-- ===== src/Calls/Signaling/Announcements.antt =====
-- Each handler of CallSignalingService, as a sequence of statements over the `calls` table: the rows
-- whose ended-listeners it runs are the rows that its statements won, in the same order.
use mathlib.Core.List.{append-nil}
use videochat.Calls.Statements.{
  Statement, end_active, cancel_gone, caller_gone, callee_gone, expire_ringing, expire_active, exec,
  won, exec_all, won_all,
}
use videochat.Calls.Signaling.Runs.{
  Runs, announced_rows-announce_if, announced_rows-announce_all, announced_rows-announce_ended_all,
  Runs-here, Runs-next, Runs-last, Runs-end_call,
}
use videochat.Calls.Signaling.Announce.{announce_if}
use videochat.Calls.Signaling.Invite.{send, invite_result, invite_callee}
use videochat.Calls.Signaling.Answer.{
  accept_result, announced, hang_up_row, hang_up_found, resume_result,
}
use videochat.Calls.Signaling.Handle.{dispatch, identified, handle, announced_all}
use videochat.Calls.Signaling.Protocol.{
  ServerEvent, call_ended, Context, Client, CallInvite, Action, ClientEvent, invite, rang, accept,
  hang_up, relay, resume, other, Outcome,
}
use videochat.Calls.Table.{
  CallStatus, ringing, active, ended, CallEndReason, missed, cancelled, declined, busy, completed,
  connection_lost, unavailable, CallRow, NewCall, insert_call, get_call, accept_call, end_set,
  end_where, end_call, gone_ringing, handle_connection_gone, resume_caller_where, resume_caller_set,
  resume_as_callee, resume_call, missed_where, lost_where, end_expired_calls, find_direct_peer,
}
use videochat.Tables.{User}
use videochat.Prelude.{
  if◌then◌else◌, head?, select, update, returning, ℕ, ◌-◌, ◌*◌, refl, sym, ap, ◌∙◌, Bool, true,
  false, Option, none, some, List, [], ◌∷◌, ◌++◌, map, arith,
}

Runs-invite :
    (ctx : Context) (client : Client) (inv : CallInvite) (calls : List CallRow) (callee : ℕ)
    (silenced callee_busy : Bool) (now : ℕ) (o : Option CallRow)
    → Runs calls (invite_result ctx client inv callee silenced callee_busy now (calls, o))
unfolding invite_result exec_all won_all
Runs-invite ctx client inv calls callee silenced callee_busy now none = Runs-here calls [] refl
Runs-invite ctx client inv calls callee silenced true now (some call) =
    unfold announced in Runs-end_call calls call.id busy now
Runs-invite ctx client inv calls callee true false now (some call) = Runs-here calls [] refl
Runs-invite ctx client inv calls callee false false now (some call) =
    Runs-here calls _ (ground arith)

Runs-insert :
    (ctx : Context) (client : Client) (inv : CallInvite) (calls : List CallRow) (c : NewCall)
    (callee : ℕ) (silenced callee_busy : Bool) (now : ℕ)
    → Runs calls
        (invite_result ctx client inv callee silenced callee_busy now (insert_call calls c now))
unfolding exec won
Runs-insert ctx client inv calls c callee silenced callee_busy now =
    Runs-next calls (Statement.insert c now)
      (invite_result ctx client inv callee silenced callee_busy now (insert_call calls c now)) refl
      (Runs-invite ctx client inv (insert_call calls c now).0 callee silenced callee_busy now
        (insert_call calls c now).1)

Runs-end_active :
    (calls : List CallRow) (id : ℕ) (reason : CallEndReason) (now : ℕ)
    → Runs calls (announced (end_call calls id reason (active ∷ []) now))
unfolding announced end_call exec won
Runs-end_active calls id reason now =
    Runs-last calls (end_active id reason now)
      (announce_if (head? (returning (end_where id (active ∷ [])) (end_set reason now) calls)))
      (sym (announced_rows-announce_if reason now (select (end_where id (active ∷ [])) calls)))

Runs-if :
    (calls : List CallRow) (b : Bool) (x y : Outcome)
    → Runs calls x
    → Runs calls y
    → Runs calls (if b then x else y)
Runs-if calls true x y hx hy = hx
Runs-if calls false x y hx hy = hy

Runs-send :
    (calls : List CallRow) (client : Client) (event : ServerEvent)
    → Runs calls (calls, send client event)
unfolding send
Runs-send calls client event = Runs-here calls (send client event) (ground arith)

Runs-on_invite :
    (ctx : Context) (calls : List CallRow) (now : ℕ) (client : Client) (caller connection : ℕ)
    (inv : CallInvite) (callee : Option User)
    → Runs calls (invite_callee ctx calls now client caller connection inv callee)
unfolding invite_callee
Runs-on_invite ctx calls now client caller connection inv none =
    Runs-send calls client (call_ended inv.call_id unavailable)
Runs-on_invite ctx calls now client caller connection inv (some callee) =
    Runs-if calls _ _ _ (Runs-send calls client (call_ended inv.call_id unavailable)) (
      Runs-if calls _ _ _ (Runs-send calls client (call_ended inv.call_id busy))
        (Runs-insert ctx client inv calls _ callee.id _ _ now))

Runs-hang_up :
    (calls : List CallRow) (now user : ℕ) (action : Action) (call : CallRow) (status : CallStatus)
    → Runs calls (hang_up_row calls now user action call status)
unfolding hang_up_row
Runs-hang_up calls now user action call ringing =
    Runs-if calls _ _ _ (Runs-end_call calls call.id cancelled now)
      (Runs-if calls _ _ _ (Runs-end_call calls call.id declined now) (Runs-here calls [] refl))
Runs-hang_up calls now user action call active =
    Runs-if calls _ _ _ (Runs-end_active calls call.id completed now) (Runs-here calls [] refl)
Runs-hang_up calls now user action call ended = Runs-here calls [] refl

Runs-found :
    (calls : List CallRow) (now user : ℕ) (action : Action) (o : Option CallRow)
    → Runs calls (hang_up_found calls now user action o)
unfolding hang_up_found
Runs-found calls now user action none = Runs-here calls [] refl
Runs-found calls now user action (some call) =
    Runs-if calls _ _ _ (Runs-hang_up calls now user action call call.status)
      (Runs-here calls [] refl)

Runs-accept :
    (calls : List CallRow) (user connection id : ℕ) (o : Option CallRow)
    → Runs calls (accept_result user connection id (calls, o))
unfolding accept_result exec_all won_all
Runs-accept calls user connection id (some call) = Runs-here calls _ refl
Runs-accept calls user connection id none = Runs-here calls _ (ground arith)

Runs-resume :
    (calls : List CallRow) (connection id : ℕ) (o : Option CallRow)
    → Runs calls (resume_result connection id (calls, o))
unfolding resume_result exec_all won_all
Runs-resume calls connection id (some call) = Runs-here calls _ (ground arith)
Runs-resume calls connection id none = Runs-here calls _ (ground arith)

-- The second UPDATE of `resumeCall` runs if the first returned no row.
Runs-resume_as_callee :
    (calls : List CallRow) (id user connection : ℕ) (o : Option CallRow)
    → Runs calls (resume_result connection id (resume_as_callee calls id user connection o))
unfolding exec won
Runs-resume_as_callee calls id user connection (some call) =
    Runs-resume calls connection id (some call)
Runs-resume_as_callee calls id user connection none =
    Runs-next calls (Statement.resume_callee id user connection)
      (resume_result connection id (resume_as_callee calls id user connection none)) refl
      (Runs-resume (exec calls (Statement.resume_callee id user connection)) connection id _)

pub Runs-disconnect :
    (calls : List CallRow) (connection now : ℕ)
    → Runs calls (announced_all (handle_connection_gone calls connection now))
unfolding announced_all handle_connection_gone exec won exec_all won_all
Runs-disconnect calls connection now = record {
  statements =
      cancel_gone connection now ∷ caller_gone connection now ∷ callee_gone connection now ∷ [];
  table = refl;
  wins =
      append-nil (returning (gone_ringing connection) (end_set cancelled now) calls)
      ∙ sym (
          announced_rows-announce_ended_all cancelled now (select (gone_ringing connection) calls));
}

pub Runs-expire :
    (calls : List CallRow) (now ring grace : ℕ)
    → Runs calls (announced_all (end_expired_calls calls now ring grace))
unfolding announced_all end_expired_calls exec won exec_all won_all
Runs-expire calls now ring grace =
    let late : CallRow → Bool = missed_where (now - ring * 1000) in
    let gone_too_long : CallRow → Bool = lost_where (now - grace * 1000) in
    let rest : List CallRow = select gone_too_long (update late (end_set missed now) calls) in
    record {
      statements =
          expire_ringing (now - ring * 1000) now ∷ expire_active (now - grace * 1000) now ∷ [];
      table = refl;
      wins = rw append-nil (
          sym (
            announced_rows-announce_all missed now (select late calls)
              (map (end_set connection_lost now) rest)
            ∙ ap (λ (t : List CallRow). returning late (end_set missed now) calls ++ t)
                (announced_rows-announce_ended_all connection_lost now rest)));
    }

Runs-dispatch :
    (ctx : Context) (calls : List CallRow) (now : ℕ) (client : Client) (user connection : ℕ)
    (event : ClientEvent)
    → Runs calls (dispatch ctx calls now client user connection event)
unfolding dispatch exec won accept_call resume_call
Runs-dispatch ctx calls now client user connection (invite none) = Runs-here calls [] refl
Runs-dispatch ctx calls now client user connection (invite (some inv)) =
    Runs-on_invite ctx calls now client user connection inv
      (find_direct_peer ctx.conversations ctx.memberships ctx.users inv.conversation_id user)
Runs-dispatch ctx calls now client user connection (rang none) = Runs-here calls [] refl
Runs-dispatch ctx calls now client user connection (rang (some id)) =
    Runs-here calls _ (ground arith)
Runs-dispatch ctx calls now client user connection (accept none) = Runs-here calls [] refl
Runs-dispatch ctx calls now client user connection (accept (some id)) =
    Runs-next calls (Statement.accept id user connection now)
      (accept_result user connection id (accept_call calls id user connection now)) refl
      (Runs-accept (accept_call calls id user connection now).0 user connection id
        (accept_call calls id user connection now).1)
Runs-dispatch ctx calls now client user connection (hang_up action none) = Runs-here calls [] refl
Runs-dispatch ctx calls now client user connection (hang_up action (some id)) =
    Runs-found calls now user action (get_call calls id)
Runs-dispatch ctx calls now client user connection (relay kind none) = Runs-here calls [] refl
Runs-dispatch ctx calls now client user connection (relay kind (some payload)) =
    Runs-here calls _ (ground arith)
Runs-dispatch ctx calls now client user connection (resume none) = Runs-here calls [] refl
Runs-dispatch ctx calls now client user connection (resume (some id)) =
    Runs-next calls (Statement.resume_caller id user connection)
      (resume_result connection id (resume_call calls id user connection)) refl
      (Runs-resume_as_callee (exec calls (Statement.resume_caller id user connection)) id user
        connection
        (head? (returning (resume_caller_where id user) (resume_caller_set connection) calls)))
Runs-dispatch ctx calls now client user connection other = Runs-here calls [] refl

Runs-identified :
    (ctx : Context) (calls : List CallRow) (now : ℕ) (client : Client) (event : ClientEvent)
    (user connection : Option ℕ)
    → Runs calls (identified ctx calls now client event user connection)
unfolding identified
Runs-identified ctx calls now client event (some user) (some connection) =
    Runs-dispatch ctx calls now client user connection event
Runs-identified ctx calls now client event (some user) none = Runs-here calls [] refl
Runs-identified ctx calls now client event none connection = Runs-here calls [] refl

-- What `handle` does for any event of any client is a sequence of statements over the `calls` table,
-- and it runs the ended-listeners for exactly the rows that these statements handed out as ended.
pub Runs-handle :
    (ctx : Context) (calls : List CallRow) (now : ℕ) (client : Client) (event : ClientEvent)
    → Runs calls (handle ctx calls now client event)
unfolding handle
Runs-handle ctx calls now client event =
    Runs-identified ctx calls now client event client.user_id client.connection_id
