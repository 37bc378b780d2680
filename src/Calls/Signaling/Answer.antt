-- ===== src/Calls/Signaling/Answer.antt =====
-- The handlers of CallSignalingService for a call that exists: `ringing`, `accept`, `hangUp`, `relay`
-- and `resume`.
use videochat.Prelude.{
  ℕ, Bool, true, false, not, ◌&&◌, ◌||◌, Option, none, some, List, [], ◌∷◌, ◌==◌, if◌then◌else◌,
}
use videochat.Calls.Table.{
  CallRow, CallEndReason, CallStatus, ringing, active, ended, cancelled, declined, completed,
  get_call, accept_call, end_call, resume_call, peer_connection_of, status_eq,
}
use videochat.Calls.Signaling.Protocol.{
  RelayType, ServerEvent, rings, accepted, call_ended, relayed, resumed, Effect, to_user,
  to_connection, Relay, Action, decline, cancel, end, Outcome,
}
use videochat.Calls.Signaling.Announce.{announce_if}

unfoldable pub ringing_row : ℕ → CallRow → List Effect
ringing_row user call =
    if not (call.callee_id == user) || not (status_eq call.status ringing) || call.silenced
    then []
    else to_connection call.caller_connection_id (rings call.id) ∷ []

unfoldable pub ringing_found : ℕ → Option CallRow → List Effect
unfolding ringing_row
ringing_found user none = []
ringing_found user (some call) = ringing_row user call

unfoldable pub on_ringing : List CallRow → ℕ → Option ℕ → Outcome
unfolding ringing_found
on_ringing calls user none = (calls, [])
on_ringing calls user (some id) = (calls, ringing_found user (get_call calls id))

-- What a device that lost the race is told: the answering device, or how the call ended.
unfoldable pub lost_race : ℕ → CallRow → CallStatus → Option ℕ → Option CallEndReason → List Effect
lost_race connection call active (some answered_by) reason =
    to_connection connection (accepted call.id answered_by) ∷ []
lost_race connection call ended answered_by (some reason) =
    to_connection connection (call_ended call.id reason) ∷ []
lost_race connection call status answered_by reason = []

unfoldable pub lost_race_found : ℕ → ℕ → Option CallRow → List Effect
unfolding lost_race
lost_race_found user connection none = []
lost_race_found user connection (some call) =
    if call.callee_id == user
    then lost_race connection call call.status call.callee_connection_id call.end_reason
    else []

unfoldable pub accept_result : ℕ → ℕ → ℕ → List CallRow × Option CallRow → Outcome
unfolding lost_race_found
accept_result user connection id (calls, some call) = (
  calls,
  to_user call.callee_id (accepted call.id connection)
      ∷ to_user call.caller_id (accepted call.id connection)
      ∷ [],
)
accept_result user connection id (calls, none) =
    (calls, lost_race_found user connection (get_call calls id))

unfoldable pub on_accept : List CallRow → ℕ → ℕ → ℕ → Option ℕ → Outcome
unfolding accept_result
on_accept calls now user connection none = (calls, [])
on_accept calls now user connection (some id) =
    accept_result user connection id (accept_call calls id user connection now)

abbrev is_action : Action → Action → Bool
is_action decline decline = true
is_action cancel cancel = true
is_action end end = true
is_action _ _ = false

unfoldable pub announced : List CallRow × Option CallRow → Outcome
unfolding announce_if
announced (calls, call) = (calls, announce_if call)

-- The three branches of `hangUp`, for a participant of the call.
unfoldable pub hang_up_row : List CallRow → ℕ → ℕ → Action → CallRow → CallStatus → Outcome
unfolding announced
hang_up_row calls now user action call ringing =
    if call.caller_id == user && not (is_action action decline)
    then announced (end_call calls call.id cancelled (ringing ∷ []) now)
    else if call.callee_id == user && not (is_action action cancel) && not call.silenced
    then announced (end_call calls call.id declined (ringing ∷ []) now)
    else (calls, [])
hang_up_row calls now user action call active =
    if is_action action end
    then announced (end_call calls call.id completed (active ∷ []) now)
    else (calls, [])
hang_up_row calls now user action call ended = (calls, [])

unfoldable pub hang_up_found : List CallRow → ℕ → ℕ → Action → Option CallRow → Outcome
unfolding hang_up_row
hang_up_found calls now user action none = (calls, [])
hang_up_found calls now user action (some call) =
    if call.caller_id == user || call.callee_id == user
    then hang_up_row calls now user action call call.status
    else (calls, [])

unfoldable pub on_hang_up : List CallRow → ℕ → ℕ → Action → Option ℕ → Outcome
unfolding hang_up_found
on_hang_up calls now user action none = (calls, [])
on_hang_up calls now user action (some id) = hang_up_found calls now user action (get_call calls id)

unfoldable pub to_peer : Option ℕ → ServerEvent → List Effect
to_peer none event = []
to_peer (some peer) event = to_connection peer event ∷ []

unfoldable pub relay_found : ℕ → RelayType → Relay → Option CallRow → List Effect
unfolding to_peer
relay_found connection kind payload none = []
relay_found connection kind payload (some call) =
    to_peer (peer_connection_of call connection) (relayed kind payload.call_id payload.content)

unfoldable pub on_relay : List CallRow → ℕ → RelayType → Option Relay → Outcome
unfolding relay_found
on_relay calls connection kind none = (calls, [])
on_relay calls connection kind (some payload) =
    (calls, relay_found connection kind payload (get_call calls payload.call_id))

unfoldable pub not_resumed : ℕ → CallRow → CallStatus → Option CallEndReason → List Effect
not_resumed connection call ended (some reason) =
    to_connection connection (call_ended call.id reason) ∷ []
not_resumed connection call status reason = []

unfoldable pub not_resumed_found : ℕ → Option CallRow → List Effect
unfolding not_resumed
not_resumed_found connection none = []
not_resumed_found connection (some call) = not_resumed connection call call.status call.end_reason

unfoldable pub resume_result : ℕ → ℕ → List CallRow × Option CallRow → Outcome
unfolding not_resumed_found to_peer
resume_result connection id (calls, none) =
    (calls, not_resumed_found connection (get_call calls id))
resume_result connection id (calls, some call) = (
  calls,
  to_connection connection (resumed call.id)
      ∷ to_peer (peer_connection_of call connection) (resumed call.id),
)

unfoldable pub on_resume : List CallRow → ℕ → ℕ → Option ℕ → Outcome
unfolding resume_result
on_resume calls user connection none = (calls, [])
on_resume calls user connection (some id) =
    resume_result connection id (resume_call calls id user connection)
