-- ===== src/Calls/Examples.antt =====
-- Calls at concrete inputs: anna (1) calls ben (2) in their conversation (10); ben has blocked
-- clara (3), who calls him in conversation 20.
use Prim.Native.String.{String}
use videochat.Calls.Statements.{Statement, exec_all, won_all}
use videochat.Calls.Lifecycle.{IsValid, Evolves, exec_all-Evolves, exec_all-IsValid}
use videochat.Calls.Races.{has_id, is_ended, ended_once}
use videochat.Calls.Answers.{answered_once}
use videochat.Calls.Signaling.Served.{dropped, dropped_all, started, announced_once}
use videochat.Calls.Signaling.Unheard.{unheard, heard_by, invite_hides_block}
use videochat.Calls.Signaling.Handle.{
  handle, marked, handle_disconnect, swept, first_failed, second_failed, sweep, Request, received,
  closed, timer, serve, serve_all,
}
use videochat.Calls.Signaling.Answer.{on_accept, on_relay}
use videochat.Calls.Signaling.Invite.{on_invite}
use videochat.Calls.Signaling.Protocol.{
  RelayType, call_ended, relayed, to_connection, to_socket, Context, Client, CallInvite, Relay,
  Action, ClientEvent, invite, hang_up,
}
use videochat.Calls.Signaling.Runs.{announced_rows, Runs}
use videochat.Calls.Signaling.Silence.{Spares}
use videochat.Calls.Signaling.Sweeping.{IsInTime, sweep_settles}
use videochat.Calls.Signaling.Announcements.{Runs-handle}
use videochat.Calls.Signaling.Authority.{outsider_changes_nothing}
use videochat.Calls.Signaling.Relaying.{relay_both_ways, repeated_invite_busy}
use videochat.Calls.Table.{
  audio, ringing, active, ended, missed, declined, busy, CallRow, insert_call, get_call,
  find_open_call_for_user, accept_call, handle_connection_gone, end_expired_calls,
  peer_connection_of, find_direct_peer,
}
use videochat.Tables.{direct, member, User, Conversation, Membership, is_blocked}
use videochat.Prelude.{
  All, count, ℕ, ◌+◌, ◌≤◌, ◌≡◌, refl, true, false, none, some, List, [], ◌∷◌, arith,
}

abbrev person : ℕ → String → User
person id name = record { id = id; display_name = name; avatar_key = none; deleted_at = none }

abbrev chat : ℕ → Conversation
chat id = record { id = id; kind = direct; last_seq = 0; last_message_at = none }

abbrev seat : ℕ → ℕ → Membership
seat conversation user = record {
  conversation_id = conversation;
  user_id = user;
  role = member;
  last_read_seq = 0;
  muted_until = none;
  joined_at = 0;
  left_at = none;
}

abbrev ctx : Context
ctx = record {
  conversations = chat 10 ∷ chat 20 ∷ [];
  memberships = seat 10 1 ∷ seat 10 2 ∷ seat 20 3 ∷ seat 20 2 ∷ [];
  users = person 1 "anna" ∷ person 2 "ben" ∷ person 3 "clara" ∷ [];
  blocks = record { blocker_id = 2; blocked_id = 3 } ∷ [];
  get_avatar_url = λ key. none;
  publish_ok = λ effect. true;
  ring_timeout_sec = 30;
  reconnect_grace_sec = 20;
}

abbrev socket : ℕ → ℕ → Client
socket user connection = record {
  user_id = some user;
  connection_id = some connection;
  display_name = none;
  is_open = true;
}

abbrev call_ben : ℕ → ℕ → CallInvite
call_ben id conversation = record { call_id = id; conversation_id = conversation; media = audio }

abbrev placed : CallRow
placed = record {
  id = 7;
  conversation_id = 10;
  caller_id = 1;
  callee_id = 2;
  media = audio;
  status = ringing;
  end_reason = none;
  caller_connection_id = 100;
  callee_connection_id = none;
  caller_disconnected_at = none;
  callee_disconnected_at = none;
  silenced = false;
  created_at = 1000;
  answered_at = none;
  ended_at = none;
}

abbrev missed_call : CallRow
missed_call = record placed { status = ended; end_reason = some missed; ended_at = some 40000 }

abbrev answered : CallRow
answered = record placed {
  status = active;
  callee_connection_id = some 200;
  answered_at = some 2000;
}

-- The same call, silenced.
abbrev hushed : CallRow
hushed = record placed { silenced = true }

one_row : (r : CallRow) (k : ℕ) → count (has_id k) (r ∷ []) ≤ 1
one_row r k = ground arith

abbrev evening : List Request
evening =
    received 1000 (socket 1 100) (invite (some (call_ben 7 10)))
    ∷ received 2000 (socket 2 200) (ClientEvent.accept (some 7))
    ∷ received 2500 (socket 2 201) (ClientEvent.accept (some 7))
    ∷ closed 3000 (socket 1 100) marked
    ∷ timer 40000 first_failed
    ∷ timer 41000 swept
    ∷ timer 42000 swept
    ∷ []

-- The call nobody answers: a sweep that fails halfway ends it, and no listener runs.
abbrev bad_evening : List Request
bad_evening =
    received 1000 (socket 1 100) (invite (some (call_ben 7 10)))
    ∷ timer 40000 second_failed
    ∷ timer 41000 swept
    ∷ []

bad_evening_drops : dropped_all ctx started bad_evening ≡ missed_call ∷ []
unfolding dropped_all dropped serve handle on_invite sweep insert_call end_expired_calls
    find_direct_peer is_blocked find_open_call_for_user
bad_evening_drops = refl

-- The call was answered, lost its caller, and ended by the sweep.
evening_ends : count (is_ended 7) (serve_all ctx started evening).0.calls ≡ 1
unfolding serve_all serve handle on_invite on_accept handle_disconnect sweep insert_call accept_call
    handle_connection_gone end_expired_calls find_direct_peer is_blocked find_open_call_for_user
evening_ends = refl

announced_once_example :
    (count (has_id 7) (announced_rows (serve_all ctx started bad_evening).1)
        + count (has_id 7) (dropped_all ctx started bad_evening)
      ≡ count (is_ended 7) (serve_all ctx started bad_evening).0.calls)
    × (count (has_id 7) (announced_rows (serve_all ctx started bad_evening).1)
          + count (has_id 7) (dropped_all ctx started bad_evening)
        ≤ 1)
announced_once_example = announced_once ctx bad_evening 7

abbrev racing : List Statement
racing =
    Statement.insert
      (record {
        id = 7;
        conversation_id = 10;
        caller_id = 1;
        callee_id = 2;
        media = audio;
        caller_connection_id = 100;
        silenced = false;
      })
      1000
    ∷ Statement.end_ringing 7 declined 2000
    ∷ Statement.expire_ringing 30000 60000
    ∷ Statement.cancel_gone 100 60001
    ∷ Statement.expire_active 40000 60000
    ∷ []

ended_once_example :
    (count (has_id 7) (won_all [] racing) ≡ count (is_ended 7) (exec_all [] racing))
    × (count (has_id 7) (won_all [] racing) ≤ 1)
ended_once_example = ended_once racing 7

answered_once_example :
    (accept_call (exec_all (accept_call (placed ∷ []) 7 2 200 2000).0 racing) 7 2 201 2500).1 ≡ none
answered_once_example =
    answered_once (placed ∷ []) 7 2 200 2000 answered racing 2 201 2500 (one_row placed)
      (unfold accept_call in refl)

Evolves_example :
    (s : CallRow) × (get_call (exec_all (placed ∷ []) racing) 7 ≡ some s) × Evolves placed s
Evolves_example = exec_all-Evolves (placed ∷ []) racing 7 placed (unfold get_call in refl)

IsValid_example : All IsValid (exec_all (placed ∷ []) racing)
IsValid_example = exec_all-IsValid (placed ∷ []) racing (ground arith)

unheard_example :
    All
      (Spares 7 2)
      (serve_all ctx (record { calls = hushed ∷ []; sweep_failing = false }) evening).1
unheard_example =
    unheard 7 2 ctx (record { calls = hushed ∷ []; sweep_failing = false }) evening
      (refl, ((λ e. (refl, omega arith, refl)), tt))

-- Clara cannot tell that ben has blocked her.
invite_hides_block_example :
    heard_by 3 300
      (on_invite (record ctx { blocks = [] }) [] 1000 (socket 3 300) 3 300 (some (call_ben 7 20))).1
    ≡ heard_by 3 300 (on_invite ctx [] 1000 (socket 3 300) 3 300 (some (call_ben 7 20))).1
unfolding find_direct_peer is_blocked find_open_call_for_user
invite_hides_block_example =
    invite_hides_block ctx [] [] 1000 (socket 3 300) 3 300 (call_ben 7 20) (person 2 "ben") refl
      (omega arith) refl refl

Runs-handle_example : Runs [] (handle ctx [] 1000 (socket 1 100) (invite (some (call_ben 7 10))))
Runs-handle_example = Runs-handle ctx [] 1000 (socket 1 100) (invite (some (call_ben 7 10)))

outsider_example :
    get_call (handle ctx (answered ∷ []) 3000 (socket 3 300) (hang_up Action.end (some 7))).0 7
    ≡ some answered
outsider_example =
    outsider_changes_nothing ctx (answered ∷ []) 3000 (socket 3 300) (hang_up Action.end (some 7)) 7
      answered 3 refl (unfold get_call in refl) (omega arith) (omega arith)

sweep_settles_example :
    All (IsInTime 40000 30 20) (end_expired_calls (placed ∷ []) 40000 30 20).0
    × (end_expired_calls (end_expired_calls (placed ∷ []) 40000 30 20).0 40000 30 20
        ≡ ((end_expired_calls (placed ∷ []) 40000 30 20).0, []))
sweep_settles_example = sweep_settles (placed ∷ []) 40000 30 20

abbrev text : Relay
text = record { call_id = 7; content = "sdp" }

relay_both_ways_example :
    (on_relay (answered ∷ []) 200 RelayType.answer (some text)).1
    ≡ to_connection 100 (relayed RelayType.answer 7 "sdp") ∷ []
relay_both_ways_example =
    relay_both_ways (answered ∷ []) 100 200 RelayType.offer RelayType.answer text text (omega arith)
      refl (unfold on_relay get_call peer_connection_of in refl)

repeated_invite_example :
    on_invite ctx
      (on_invite ctx [] 1000 (socket 1 100) 1 100 (some (call_ben 7 10))).0
      1500
      (socket 1 100)
      1
      100
      (some (call_ben 7 10))
    ≡ (
      (on_invite ctx [] 1000 (socket 1 100) 1 100 (some (call_ben 7 10))).0,
      to_socket (call_ended 7 busy) ∷ [],
    )
unfolding on_invite insert_call find_direct_peer is_blocked find_open_call_for_user
repeated_invite_example =
    repeated_invite_busy ctx [] 1000 1500 (socket 1 100) (socket 1 100) 1 100 100 (call_ben 7 10)
      refl refl refl
