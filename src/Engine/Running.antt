-- ===== src/Engine/Running.antt =====
-- The events that drive CallEngine (apps/web/src/features/calls/CallEngine.ts): the user's calls
-- of its methods, the server's messages (`handleEvent`), and what the browser's peer connection
-- and timers call back. A timer that is due fires before the next event.
use videochat.Engine.State.{
  CallMedia, Direction, placed, received, incoming, connecting, CallEndCause, answered_elsewhere,
  unknown, CallSnapshot, Signal, offer, ice, Effect, send_ringing, CallEngine, Out, quietly,
  then_do, is_outgoing, is_video, is_busy, is_current, update,
}
use videochat.Engine.Peer.{
  finish, reset, restart_ice, on_signal, send_description, run_signal, ice_servers_ready,
}
use videochat.Engine.Operations.{
  start_outgoing, accept, decline, hang_up, dismiss, on_signalling_reconnected, on_network_change,
  toggle_audio, give_up, ConnectionState, on_connection_state, sample_stats,
}
use videochat.Engine.Video.{
  toggle_video, camera_ready, start_screen_share, screen_ready, stop_screen_share,
}
use videochat.Prelude.{
  leb, if◌then◌else◌, ℕ, ◌+◌, Bool, true, false, not, ◌&&◌, ◌||◌, Option, none, some, List, [], ◌∷◌,
  ◌++◌,
}

-- `onIncoming`.
abbrev pub incoming_snapshot : ℕ → ℕ → CallMedia → ℕ → CallSnapshot
incoming_snapshot call_id conversation_id media caller = record {
  call_id = call_id;
  conversation_id = conversation_id;
  peer = caller;
  media = media;
  direction = received;
  phase = incoming;
  callee_ringing = false;
  started_at = none;
  local_stream = none;
  audio_enabled = true;
  video_enabled = false;
  sharing_screen = false;
  remote_audio_enabled = true;
  remote_video_enabled = is_video media;
  remote_screen_sharing = false;
  end_cause = none;
  quality = unknown;
  low_bandwidth = false;
}

unfoldable pub on_incoming : CallEngine → ℕ → ℕ → CallMedia → ℕ → Out
on_incoming e call_id conversation_id media caller = if is_busy e then quietly e else (
  record (reset e).0 { snap = some (incoming_snapshot call_id conversation_id media caller) },
  (reset e).1 ++ send_ringing call_id ∷ [],
)

-- `onAccepted`; whether the answer came from this device's connection.
abbrev pub accepted_by : CallEngine → CallSnapshot → Direction → Bool → ℕ → Out
accepted_by e s received own now = if own then quietly e else finish e answered_elsewhere now
accepted_by e s placed own now =
    if is_outgoing s.phase
    then quietly
        (update (λ t. record t { phase = connecting }) (record e { starting = e.starting + 1 }))
    else quietly e

abbrev pub accepted_found : CallEngine → Option CallSnapshot → Bool → ℕ → Out
accepted_found e none own now = quietly e
accepted_found e (some s) own now = accepted_by e s s.direction own now

unfoldable pub on_accepted : CallEngine → ℕ → Bool → ℕ → Out
on_accepted e call_id own now =
    if is_current e call_id then accepted_found e e.snap own now else quietly e

pub data Event : Type 0 where
  starts_outgoing :
      (call_id conversation_id peer : ℕ) → (media : CallMedia) → (has_camera : Bool) → Event
  accepts : (has_camera : Bool) → Event
  declines hangs_up dismisses toggles_audio signalling_reconnects network_changes : Event
  gets_incoming : (call_id conversation_id : ℕ) → (media : CallMedia) → (caller : ℕ) → Event
  gets_ringing gets_resume : (call_id : ℕ) → Event
  gets_accepted : (call_id : ℕ) → (own : Bool) → Event
  gets_ended : (call_id : ℕ) → (reason : CallEndCause) → Event
  gets_signal : (call_id : ℕ) → Signal → Event
  gets_media : (call_id : ℕ) → (audio video screen : Bool) → Event
  gets_ice_servers : Event
  runs_signal : (stable : Bool) → (answer_sdp : ℕ) → Event
  connection_changes : ConnectionState → Event
  finds_candidate : (candidate : ℕ) → Event
  negotiation_starts : Event
  negotiation_ends : (description : Option ℕ) → Event
  samples_stats : (is_poor is_low : Bool) → Event
  toggles_video shares_screen stops_sharing : Event
  gets_camera gets_screen : (call_id : ℕ) → Event

abbrev pub ringing_set : Option CallSnapshot → CallEngine → CallEngine
ringing_set none e = e
ringing_set (some s) e =
    if is_outgoing s.phase then update (λ t. record t { callee_ringing = true }) e else e

abbrev pub negotiated : Option CallSnapshot → Option ℕ → List Effect
negotiated snap none = []
negotiated snap (some sdp) = send_description snap (offer sdp)

abbrev pub set_remote_media : Bool → Bool → Bool → CallSnapshot → CallSnapshot
set_remote_media sound picture screen s = record s {
  remote_audio_enabled = sound;
  remote_video_enabled = picture;
  remote_screen_sharing = screen;
}

unfoldable pub handle : CallEngine → ℕ → Event → Out
handle e now (starts_outgoing call_id conversation_id peer media has_camera) =
    start_outgoing e call_id conversation_id peer media has_camera
handle e now (accepts has_camera) = accept e has_camera
handle e now declines = decline e now
handle e now hangs_up = hang_up e now
handle e now dismisses = quietly (dismiss e)
handle e now toggles_audio = toggle_audio e
handle e now signalling_reconnects = on_signalling_reconnected e
handle e now network_changes = on_network_change e
handle e now (gets_incoming call_id conversation_id media caller) =
    on_incoming e call_id conversation_id media caller
handle e now (gets_ringing call_id) =
    quietly (if is_current e call_id then ringing_set e.snap e else e)
handle e now (gets_resume call_id) =
    if is_current e call_id && not e.polite then restart_ice e else quietly e
handle e now (gets_accepted call_id own) = on_accepted e call_id own now
handle e now (gets_ended call_id reason) =
    if is_current e call_id then finish e reason now else quietly e
handle e now (gets_signal call_id signal) = quietly (on_signal e call_id signal)
handle e now (gets_media call_id sound picture screen) =
    quietly (if is_current e call_id then update (set_remote_media sound picture screen) e else e)
handle e now gets_ice_servers = ice_servers_ready e
handle e now (runs_signal stable answer_sdp) = run_signal e stable answer_sdp
handle e now (connection_changes state) = on_connection_state e state now
handle e now (finds_candidate candidate) =
    (e, if e.pc then send_description e.snap (ice candidate) else [])
handle e now negotiation_starts = quietly (record e { making_offer = e.pc || e.making_offer })
handle e now (negotiation_ends description) =
    (record e { making_offer = false }, if e.pc then negotiated e.snap description else [])
handle e now (samples_stats is_poor is_low) = quietly (sample_stats e is_poor is_low)
handle e now toggles_video = toggle_video e
handle e now shares_screen = start_screen_share e
handle e now stops_sharing = stop_screen_share e
handle e now (gets_camera call_id) = camera_ready e call_id
handle e now (gets_screen call_id) = screen_ready e call_id

abbrev pub is_due : Option ℕ → ℕ → Bool
is_due none now = false
is_due (some due) now = leb due now

unfoldable pub fire_ice_restart : CallEngine → ℕ → Out
fire_ice_restart e now =
    if is_due e.ice_restart_timer now
    then restart_ice (record e { ice_restart_timer = none })
    else quietly e

unfoldable pub fire_reconnect : CallEngine → ℕ → Out
fire_reconnect e now = if is_due e.reconnect_timer now then give_up e now else quietly e

unfoldable pub fire_due : CallEngine → ℕ → Out
fire_due e now = then_do (fire_ice_restart e now) (λ f. fire_reconnect f now)

-- An event, with the timers that are due before it.
unfoldable pub step : CallEngine → ℕ → Event → Out
step e now event = then_do (fire_due e now) (λ f. handle f now event)

unfoldable pub run : CallEngine → List (ℕ × Event) → Out
run e [] = quietly e
run e ((now, event) ∷ events) = then_do (step e now event) (λ f. run f events)
