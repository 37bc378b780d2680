-- ===== src/Calls/Table.antt =====
-- The `calls` table and its statements (apps/api/src/db/calls.ts, and the table's columns in
-- apps/api/src/db/schema.ts).
use videochat.Prelude.{
  ℕ, ◌-◌, ◌*◌, Bool, true, false, not, ◌&&◌, ◌||◌, Option, none, some, List, ◌∷◌, ◌++◌, any, head?,
  find, update, returning, ltb, ◌==◌, null_eq, null_lt, is_null, if◌then◌else◌,
}
use videochat.Tables.{User, Conversation, Membership, is_direct, is_conversation_member}

pub data CallMedia : Type 0 where
  audio video : CallMedia

pub data CallStatus : Type 0 where
  ringing active ended : CallStatus

pub data CallEndReason : Type 0 where
  missed cancelled declined busy completed connection_lost unavailable : CallEndReason

abbrev pub status_eq : CallStatus → CallStatus → Bool
status_eq ringing ringing = true
status_eq active active = true
status_eq ended ended = true
status_eq _ _ = false

pub record CallRow : Type 0 where
  pub id : ℕ
  pub conversation_id : ℕ
  pub caller_id : ℕ
  pub callee_id : ℕ
  pub media : CallMedia
  pub status : CallStatus
  pub end_reason : Option CallEndReason
  pub caller_connection_id : ℕ
  pub callee_connection_id : Option ℕ
  pub caller_disconnected_at : Option ℕ
  pub callee_disconnected_at : Option ℕ
  pub silenced : Bool
  pub created_at : ℕ
  pub answered_at : Option ℕ
  pub ended_at : Option ℕ

-- The columns that `insertCall` is given; the others take the table's defaults.
pub record NewCall : Type 0 where
  pub id : ℕ
  pub conversation_id : ℕ
  pub caller_id : ℕ
  pub callee_id : ℕ
  pub media : CallMedia
  pub caller_connection_id : ℕ
  pub silenced : Bool

unfoldable pub new_row : NewCall → ℕ → CallRow
new_row c now = record {
  id = c.id;
  conversation_id = c.conversation_id;
  caller_id = c.caller_id;
  callee_id = c.callee_id;
  media = c.media;
  status = ringing;
  end_reason = none;
  caller_connection_id = c.caller_connection_id;
  callee_connection_id = none;
  caller_disconnected_at = none;
  callee_disconnected_at = none;
  silenced = c.silenced;
  created_at = now;
  answered_at = none;
  ended_at = none;
}

-- A retried invite: the primary key is taken, and `onConflictDoNothing` returns no row.
unfoldable pub insert_call : List CallRow → NewCall → ℕ → List CallRow × Option CallRow
unfolding new_row
insert_call calls c now =
    if any (λ r. r.id == c.id) calls
    then (calls, none)
    else (new_row c now ∷ calls, some (new_row c now))

unfoldable pub get_call : List CallRow → ℕ → Option CallRow
get_call calls id = find (λ r. r.id == id) calls

unfoldable pub find_open_call_for_user : List CallRow → ℕ → Option CallRow
find_open_call_for_user calls user =
    find (λ r. not (status_eq r.status ended) && (r.caller_id == user || r.callee_id == user)) calls

abbrev pub accept_where : ℕ → ℕ → CallRow → Bool
accept_where id callee r =
    r.id == id && r.callee_id == callee && status_eq r.status ringing && not r.silenced

abbrev pub accept_set : ℕ → ℕ → CallRow → CallRow
accept_set connection now r = record r {
  status = active;
  callee_connection_id = some connection;
  answered_at = some now;
}

unfoldable pub accept_call : List CallRow → ℕ → ℕ → ℕ → ℕ → List CallRow × Option CallRow
accept_call calls id callee connection now = (
  update (accept_where id callee) (accept_set connection now) calls,
  head? (returning (accept_where id callee) (accept_set connection now) calls),
)

-- The columns that every statement which ends a call sets.
abbrev pub end_set : CallEndReason → ℕ → CallRow → CallRow
end_set reason now r = record r { status = ended; end_reason = some reason; ended_at = some now }

abbrev pub end_where : ℕ → List CallStatus → CallRow → Bool
end_where id from r = r.id == id && any (status_eq r.status) from

unfoldable pub end_call :
    List CallRow → ℕ → CallEndReason → List CallStatus → ℕ → List CallRow × Option CallRow
end_call calls id reason from now = (
  update (end_where id from) (end_set reason now) calls,
  head? (returning (end_where id from) (end_set reason now) calls),
)

abbrev pub gone_ringing : ℕ → CallRow → Bool
gone_ringing connection r = r.caller_connection_id == connection && status_eq r.status ringing

abbrev pub gone_caller : ℕ → CallRow → Bool
gone_caller connection r = r.caller_connection_id == connection && status_eq r.status active

abbrev pub gone_callee : ℕ → CallRow → Bool
gone_callee connection r = null_eq r.callee_connection_id connection && status_eq r.status active

abbrev pub mark_caller_gone : ℕ → CallRow → CallRow
mark_caller_gone now r = record r { caller_disconnected_at = some now }

abbrev pub mark_callee_gone : ℕ → CallRow → CallRow
mark_callee_gone now r = record r { callee_disconnected_at = some now }

-- The table after the three statements, and the calls that the first one cancelled.
unfoldable pub handle_connection_gone : List CallRow → ℕ → ℕ → List CallRow × List CallRow
handle_connection_gone calls connection now =
    let after_cancel = update (gone_ringing connection) (end_set cancelled now) calls in
    let after_caller = update (gone_caller connection) (mark_caller_gone now) after_cancel in
    (
      update (gone_callee connection) (mark_callee_gone now) after_caller,
      returning (gone_ringing connection) (end_set cancelled now) calls,
    )

abbrev pub resume_caller_where : ℕ → ℕ → CallRow → Bool
resume_caller_where id user r = r.id == id && r.caller_id == user && status_eq r.status active

abbrev pub resume_callee_where : ℕ → ℕ → CallRow → Bool
resume_callee_where id user r = r.id == id && r.callee_id == user && status_eq r.status active

abbrev pub resume_caller_set : ℕ → CallRow → CallRow
resume_caller_set connection r = record r {
  caller_connection_id = connection;
  caller_disconnected_at = none;
}

abbrev pub resume_callee_set : ℕ → CallRow → CallRow
resume_callee_set connection r = record r {
  callee_connection_id = some connection;
  callee_disconnected_at = none;
}

-- The second statement runs only if the first returned no row.
abbrev pub resume_as_callee :
    List CallRow → ℕ → ℕ → ℕ → Option CallRow → List CallRow × Option CallRow
resume_as_callee calls id user connection (some row) = (calls, some row)
resume_as_callee calls id user connection none = (
  update (resume_callee_where id user) (resume_callee_set connection) calls,
  head? (returning (resume_callee_where id user) (resume_callee_set connection) calls),
)

unfoldable pub resume_call : List CallRow → ℕ → ℕ → ℕ → List CallRow × Option CallRow
resume_call calls id user connection =
    resume_as_callee (update (resume_caller_where id user) (resume_caller_set connection) calls) id
      user connection
      (head? (returning (resume_caller_where id user) (resume_caller_set connection) calls))

abbrev pub missed_where : ℕ → CallRow → Bool
missed_where cutoff r = status_eq r.status ringing && ltb r.created_at cutoff

abbrev pub lost_where : ℕ → CallRow → Bool
lost_where cutoff r =
    status_eq r.status active
    && (null_lt r.caller_disconnected_at cutoff || null_lt r.callee_disconnected_at cutoff)

-- A cutoff before the epoch is below every timestamp, and so is 0, where `-` stops.
unfoldable pub end_expired_calls : List CallRow → ℕ → ℕ → ℕ → List CallRow × List CallRow
end_expired_calls calls now ring_timeout_sec reconnect_grace_sec =
    let ring_cutoff = now - ring_timeout_sec * 1000 in
    let grace_cutoff = now - reconnect_grace_sec * 1000 in
    let after_missed = update (missed_where ring_cutoff) (end_set missed now) calls in
    (
      update (lost_where grace_cutoff) (end_set connection_lost now) after_missed,
      returning (missed_where ring_cutoff) (end_set missed now) calls
          ++ returning (lost_where grace_cutoff) (end_set connection_lost now) after_missed,
    )

-- By the status of the row, which the source tests first.
abbrev pub peer_of_active : CallRow → ℕ → Option ℕ
peer_of_active call connection =
    if call.caller_connection_id == connection
    then call.callee_connection_id
    else if null_eq call.callee_connection_id connection
    then some call.caller_connection_id
    else none

unfoldable pub peer_connection_of : CallRow → ℕ → Option ℕ
peer_connection_of call connection =
    if status_eq call.status active then peer_of_active call connection else none

-- The other current member of a direct conversation that the user is a current member of. The
-- join with `users` finds the row of a member by the foreign key.
unfoldable pub find_direct_peer :
    List Conversation → List Membership → List User → ℕ → ℕ → Option User
unfolding is_conversation_member
find_direct_peer conversations memberships users conversation user =
    if any (λ c. c.id == conversation && is_direct c.kind) conversations
      && is_conversation_member memberships conversation user
    then find
        (λ u.
          any
            (λ m.
              m.conversation_id == conversation
              && not (m.user_id == user)
              && is_null m.left_at
              && u.id == m.user_id)
            memberships)
        users
    else none
