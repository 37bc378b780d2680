-- ===== src/Calls/Signaling/Invite.antt =====
-- `invite` of CallSignalingService, with `callerSummary` and `send`.
use Prim.Native.String.{String}
use videochat.Prelude.{
  ℕ, Bool, not, ◌&&◌, Option, none, some, List, [], ◌∷◌, find, ◌==◌, is_null, if◌then◌else◌,
}
use videochat.Tables.{User, is_blocked}
use videochat.Calls.Table.{
  CallRow, ringing, busy, unavailable, insert_call, find_open_call_for_user, end_call,
  find_direct_peer,
}
use videochat.Calls.Signaling.Protocol.{
  CallerSummary, ServerEvent, incoming, call_ended, Effect, to_user, to_socket, incoming_listeners,
  Context, Client, CallInvite, Outcome,
}
use videochat.Calls.Signaling.Announce.{announce_if}

unfoldable pub send : Client → ServerEvent → List Effect
send client event = if client.is_open then to_socket event ∷ [] else []

or_empty : Option String → String
or_empty none = ""
or_empty (some s) = s

caller_of : Context → ℕ → Option String → Option User → CallerSummary
unfolding or_empty
caller_of ctx caller name none = record {
  id = caller;
  display_name = or_empty name;
  avatar_url = none;
}
caller_of ctx caller name (some user) = record {
  id = caller;
  display_name = user.display_name;
  avatar_url = ctx.get_avatar_url user.avatar_key;
}

unfoldable pub caller_summary : Context → ℕ → Client → CallerSummary
unfolding caller_of
caller_summary ctx caller client =
    caller_of ctx caller client.display_name (find (λ u. u.id == caller) ctx.users)

-- The rest of `invite` once the row is inserted. A publish that throws ends the handler before the
-- listeners are started.
unfoldable pub invite_inserted :
    Context → Client → CallInvite → List CallRow → ℕ → Bool → Bool → ℕ → CallRow → Outcome
unfolding caller_summary announce_if
invite_inserted ctx client inv calls callee silenced callee_busy now call =
    let over = end_call calls call.id busy (ringing ∷ []) now in
    let summary = caller_summary ctx call.caller_id client in
    let ring = to_user callee (incoming inv.call_id inv.conversation_id inv.media summary) in
    if callee_busy
    then (over.0, announce_if over.1)
    else if silenced
    then (calls, [])
    else (calls, ring ∷ (if ctx.publish_ok ring then incoming_listeners call summary ∷ [] else []))

unfoldable pub invite_result :
    Context → Client → CallInvite → ℕ → Bool → Bool → ℕ → List CallRow × Option CallRow → Outcome
unfolding invite_inserted
invite_result ctx client inv callee silenced callee_busy now (calls, none) = (calls, [])
invite_result ctx client inv callee silenced callee_busy now (calls, some call) =
    invite_inserted ctx client inv calls callee silenced callee_busy now call

-- `invite` from the point where the callee is known.
unfoldable pub invite_callee :
    Context → List CallRow → ℕ → Client → ℕ → ℕ → CallInvite → Option User → Outcome
unfolding send invite_result
invite_callee ctx calls now client caller connection inv none =
    (calls, send client (call_ended inv.call_id unavailable))
invite_callee ctx calls now client caller connection inv (some callee) =
    let silenced = is_blocked ctx.blocks callee.id caller in
    let callee_busy = not silenced && not (is_null (find_open_call_for_user calls callee.id)) in
    if is_blocked ctx.blocks caller callee.id
    then (calls, send client (call_ended inv.call_id unavailable))
    else if not (is_null (find_open_call_for_user calls caller))
    then (calls, send client (call_ended inv.call_id busy))
    else invite_result ctx client inv callee.id silenced callee_busy now (
        insert_call calls
          (record {
            id = inv.call_id;
            conversation_id = inv.conversation_id;
            caller_id = caller;
            callee_id = callee.id;
            media = inv.media;
            caller_connection_id = connection;
            silenced = silenced;
          })
          now)

unfoldable pub on_invite : Context → List CallRow → ℕ → Client → ℕ → ℕ → Option CallInvite → Outcome
unfolding invite_callee
on_invite ctx calls now client caller connection none = (calls, [])
on_invite ctx calls now client caller connection (some inv) =
    invite_callee ctx calls now client caller connection inv
      (find_direct_peer ctx.conversations ctx.memberships ctx.users inv.conversation_id caller)
