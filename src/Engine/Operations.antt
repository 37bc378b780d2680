-- ===== src/Engine/Operations.antt =====
-- What the user, the network and the browser make CallEngine do
-- (apps/web/src/features/calls/CallEngine.ts). `now` is the clock.
use videochat.Engine.State.{
  CallMedia, placed, CallPhase, outgoing, incoming, connecting, active, reconnecting, ended,
  cancelled, declined, completed, connection_lost, Quality, unknown, good, poor, CallSnapshot,
  Effect, send_invite, send_accept, send_decline, send_cancel, send_end, send_resume,
  fetch_ice_servers, throw_busy, stop_stream, CallEngine, Out, quietly, after, is_ended,
  is_incoming, is_reconnecting, is_video, is_busy, update,
}
use videochat.Engine.Peer.{finish, reset, send_media_state, restart_ice}
use videochat.Prelude.{
  if◌then◌else◌, is_null, ℕ, ◌+◌, Bool, true, false, not, ◌&&◌, Option, none, some, List, [], ◌∷◌,
  ◌++◌,
}

abbrev pub reconnect_timeout_ms : ℕ
reconnect_timeout_ms = 15000

abbrev pub ice_restart_delay_ms : ℕ
ice_restart_delay_ms = 2000

abbrev pub outgoing_call : ℕ → ℕ → ℕ → CallMedia → Bool → CallSnapshot
outgoing_call call_id conversation_id peer media has_camera = record {
  call_id = call_id;
  conversation_id = conversation_id;
  peer = peer;
  media = media;
  direction = placed;
  phase = outgoing;
  callee_ringing = false;
  started_at = none;
  local_stream = some has_camera;
  audio_enabled = true;
  video_enabled = has_camera;
  sharing_screen = false;
  remote_audio_enabled = true;
  remote_video_enabled = is_video media;
  remote_screen_sharing = false;
  end_cause = none;
  quality = unknown;
  low_bandwidth = false;
}

unfoldable pub start_outgoing : CallEngine → ℕ → ℕ → ℕ → CallMedia → Bool → Out
start_outgoing e call_id conversation_id peer media has_camera =
    if is_busy e then (e, throw_busy ∷ []) else (
      record (reset e).0 {
        polite = false;
        snap = some (outgoing_call call_id conversation_id peer media has_camera);
      },
      (reset e).1 ++ fetch_ice_servers ∷ send_invite call_id conversation_id media ∷ [],
    )

abbrev pub accepted_snapshot : Bool → CallSnapshot → CallSnapshot
accepted_snapshot has_camera s = record s {
  phase = connecting;
  local_stream = some has_camera;
  audio_enabled = true;
  video_enabled = has_camera;
}

-- `accept`, up to where it waits for the ICE servers.
abbrev pub accept_found : CallEngine → Option CallSnapshot → Bool → Out
accept_found e none has_camera = (e, stop_stream ∷ [])
accept_found e (some s) has_camera =
    if is_incoming s.phase
    then (
      update (accepted_snapshot has_camera) (record e { polite = true; starting = e.starting + 1 }),
      fetch_ice_servers ∷ send_accept s.call_id ∷ [],
    )
    else (e, stop_stream ∷ [])

unfoldable pub accept : CallEngine → Bool → Out
accept e has_camera = accept_found e e.snap has_camera

abbrev pub decline_found : CallEngine → Option CallSnapshot → ℕ → Out
decline_found e none now = quietly e
decline_found e (some s) now =
    if is_incoming s.phase
    then after (send_decline s.call_id ∷ []) (finish e declined now)
    else quietly e

unfoldable pub decline : CallEngine → ℕ → Out
decline e now = decline_found e e.snap now

abbrev pub hang_up_in : CallEngine → CallSnapshot → CallPhase → ℕ → Out
hang_up_in e s ended now = quietly e
hang_up_in e s incoming now = decline e now
hang_up_in e s outgoing now = after (send_cancel s.call_id ∷ []) (finish e cancelled now)
hang_up_in e s _ now = after (send_end s.call_id ∷ []) (finish e completed now)

abbrev pub hang_up_found : CallEngine → Option CallSnapshot → ℕ → Out
hang_up_found e none now = quietly e
hang_up_found e (some s) now = hang_up_in e s s.phase now

unfoldable pub hang_up : CallEngine → ℕ → Out
hang_up e now = hang_up_found e e.snap now

abbrev pub dismiss_found : CallEngine → Option CallSnapshot → CallEngine
dismiss_found e none = e
dismiss_found e (some s) = if is_ended s.phase then record e { snap = none } else e

unfoldable pub dismiss : CallEngine → CallEngine
dismiss e = dismiss_found e e.snap

-- The phases after the answer, and those with media.
abbrev pub is_answered : CallPhase → Bool
is_answered connecting = true
is_answered active = true
is_answered reconnecting = true
is_answered _ = false

abbrev pub has_media : CallPhase → Bool
has_media active = true
has_media reconnecting = true
has_media _ = false

abbrev pub resume_effects : Option CallSnapshot → List Effect
resume_effects none = []
resume_effects (some s) = if is_answered s.phase then send_resume s.call_id ∷ [] else []

unfoldable pub on_signalling_reconnected : CallEngine → Out
on_signalling_reconnected e = (e, resume_effects e.snap)

abbrev pub network_found : CallEngine → Option CallSnapshot → Out
network_found e none = quietly e
network_found e (some s) = if has_media s.phase then restart_ice e else quietly e

unfoldable pub on_network_change : CallEngine → Out
on_network_change e = network_found e e.snap

abbrev pub toggle_found : CallEngine → Option CallSnapshot → Out
toggle_found e none = quietly e
toggle_found e (some s) =
    if is_null s.local_stream
    then quietly e
    else send_media_state (update (λ t. record t { audio_enabled = not s.audio_enabled }) e)

unfoldable pub toggle_audio : CallEngine → Out
toggle_audio e = toggle_found e e.snap

abbrev pub enter_phase : CallEngine → CallSnapshot → CallEngine
enter_phase e s =
    if is_reconnecting s.phase then e else update (λ t. record t { phase = reconnecting }) e

abbrev pub set_if_unset : Option ℕ → ℕ → Option ℕ
set_if_unset none due = some due
set_if_unset (some due) later = some due

abbrev pub enter_found : CallEngine → Option CallSnapshot → ℕ → CallEngine
enter_found e none now = e
enter_found e (some s) now = if is_ended s.phase then e else record (enter_phase e s) {
  reconnect_timer = set_if_unset e.reconnect_timer (now + reconnect_timeout_ms);
}

abbrev pub enter_reconnecting : CallEngine → ℕ → CallEngine
enter_reconnecting e now = enter_found e e.snap now

-- What the reconnect timer does when it fires.
abbrev pub give_up_found : CallEngine → Option CallSnapshot → ℕ → Out
give_up_found e none now = quietly e
give_up_found e (some s) now =
    if is_reconnecting s.phase
    then after (send_end s.call_id ∷ []) (finish e connection_lost now)
    else quietly e

unfoldable pub give_up : CallEngine → ℕ → Out
give_up e now = give_up_found e e.snap now

pub data ConnectionState : Type 0 where
  connected disconnected failed other : ConnectionState

abbrev pub since : Option ℕ → ℕ → ℕ
since none now = now
since (some t) now = t

abbrev pub connected_snapshot : ℕ → CallSnapshot → CallSnapshot
connected_snapshot now s = record s { phase = active; started_at = some (since s.started_at now) }

abbrev pub connection_in : CallEngine → CallSnapshot → ConnectionState → ℕ → Out
connection_in e s connected now =
    let active_now : CallEngine = update (connected_snapshot now) (record e {
      reconnect_timer = none;
      ice_restart_timer = none;
      reconnects = if is_reconnecting s.phase then e.reconnects + 1 else e.reconnects;
      ever_connected = true;
    }) in
    (record active_now { stats_timer = true }, (send_media_state active_now).1)
connection_in e s disconnected now =
    quietly
      (record (enter_reconnecting e now) { ice_restart_timer = some (now + ice_restart_delay_ms) })
connection_in e s failed now = restart_ice (enter_reconnecting e now)
connection_in e s other now = quietly e

abbrev pub connection_found : CallEngine → Option CallSnapshot → ConnectionState → ℕ → Out
connection_found e none state now = quietly e
connection_found e (some s) state now =
    if is_ended s.phase then quietly e else connection_in e s state now

-- The browser reports a connection's state until the connection is closed.
unfoldable pub on_connection_state : CallEngine → ConnectionState → ℕ → Out
on_connection_state e state now = if e.pc then connection_found e e.snap state now else quietly e

-- `sampleStats` from where the report is there.
abbrev pub quality_of : Bool → Quality
quality_of true = poor
quality_of false = good

abbrev pub sampled_found : CallEngine → Option CallSnapshot → Bool → Bool → CallEngine
sampled_found e none is_poor is_low = e
sampled_found e (some s) is_poor is_low =
    if is_ended s.phase
    then e
    else update
        (λ t. record t { quality = quality_of is_poor; low_bandwidth = is_low && s.video_enabled })
        e

unfoldable pub sample_stats : CallEngine → Bool → Bool → CallEngine
sample_stats e is_poor is_low = sampled_found e e.snap is_poor is_low
