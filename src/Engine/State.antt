-- ===== src/Engine/State.antt =====
-- The state of CallEngine (apps/web/src/features/calls/CallEngine.ts) and what it does to the
-- outside. Ids, names and session descriptions are opaque. Times are in milliseconds. Of a local
-- stream the model keeps whether it has a camera; the remote stream, the stream of a shared screen,
-- background blur, noise suppression, the senders of the pictures and the figures of the statistics
-- are left out. A timer that is set is the time when it fires.
use videochat.Prelude.{
  ℕ, Bool, true, false, not, ◌&&◌, ◌||◌, Option, none, some, List, [], ◌++◌, ◌==◌,
}

pub data CallMedia : Type 0 where
  audio video : CallMedia

pub data Direction : Type 0 where
  placed received : Direction

pub data CallPhase : Type 0 where
  outgoing incoming connecting active reconnecting ended : CallPhase

pub data CallEndCause : Type 0 where
  missed cancelled declined busy completed connection_lost unavailable : CallEndCause
  answered_elsewhere call_failed : CallEndCause

pub data Quality : Type 0 where
  unknown good poor : Quality

pub record CallSnapshot : Type 0 where
  pub call_id : ℕ
  pub conversation_id : ℕ
  pub peer : ℕ
  pub media : CallMedia
  pub direction : Direction
  pub phase : CallPhase
  pub callee_ringing : Bool
  pub started_at : Option ℕ
  -- Whether the local stream, if there is one, has a camera.
  pub local_stream : Option Bool
  pub audio_enabled : Bool
  pub video_enabled : Bool
  pub sharing_screen : Bool
  pub remote_audio_enabled : Bool
  pub remote_video_enabled : Bool
  pub remote_screen_sharing : Bool
  pub end_cause : Option CallEndCause
  pub quality : Quality
  pub low_bandwidth : Bool

pub data Signal : Type 0 where
  offer answer : (sdp : ℕ) → Signal
  ice : (candidate : ℕ) → Signal

pub record CallStats : Type 0 where
  pub duration_sec : ℕ
  pub reconnects : ℕ
  pub had_video : Bool
  pub end_cause : CallEndCause

pub data Effect : Type 0 where
  send_invite : (call_id conversation_id : ℕ) → (media : CallMedia) → Effect
  send_ringing send_accept send_decline send_cancel send_end send_resume : (call_id : ℕ) → Effect
  send_media : (call_id : ℕ) → (audio video screen : Bool) → Effect
  send_signal : (call_id : ℕ) → Signal → Effect
  fetch_ice_servers throw_busy stop_stream : Effect
  request_camera request_screen put_camera put_screen : Effect
  create_peer close_peer add_tracks restart_peer_ice : Effect
  set_remote_description set_local_description : Effect
  add_ice_candidate : (candidate : ℕ) → Effect
  report_stats : (call_id : ℕ) → CallStats → Effect

pub record CallEngine : Type 0 where
  pub snap : Option CallSnapshot
  -- Whether there is a peer connection.
  pub pc : Bool
  pub polite : Bool
  pub making_offer : Bool
  pub ignore_offer : Bool
  pub pending_signals : List Signal
  -- The tasks of the signal chain that have not run.
  pub signal_chain : List Signal
  -- The calls of `startPeer` that wait for the ICE servers.
  pub starting : ℕ
  pub reconnect_timer : Option ℕ
  pub ice_restart_timer : Option ℕ
  pub stats_timer : Bool
  pub reconnects : ℕ
  pub had_video : Bool
  pub ever_connected : Bool

abbrev pub idle : CallEngine
idle = record {
  snap = none;
  pc = false;
  polite = false;
  making_offer = false;
  ignore_offer = false;
  pending_signals = [];
  signal_chain = [];
  starting = 0;
  reconnect_timer = none;
  ice_restart_timer = none;
  stats_timer = false;
  reconnects = 0;
  had_video = false;
  ever_connected = false;
}

-- A method's new state, with what it did to the outside, in order.
abbrev pub Out : Type 0
Out = CallEngine × List Effect

abbrev pub quietly : CallEngine → Out
quietly e = (e, [])

-- More effects, before or after those of a method.
abbrev pub after : List Effect → Out → Out
after effects o = (o.0, effects ++ o.1)

abbrev pub then_do : Out → (CallEngine → Out) → Out
then_do o f = after o.1 (f o.0)

abbrev pub is_ended : CallPhase → Bool
is_ended ended = true
is_ended _ = false

abbrev pub is_incoming : CallPhase → Bool
is_incoming incoming = true
is_incoming _ = false

abbrev pub is_outgoing : CallPhase → Bool
is_outgoing outgoing = true
is_outgoing _ = false

abbrev pub is_reconnecting : CallPhase → Bool
is_reconnecting reconnecting = true
is_reconnecting _ = false

abbrev pub is_video : CallMedia → Bool
is_video video = true
is_video audio = false

abbrev pub is_busy_with : Option CallSnapshot → Bool
is_busy_with none = false
is_busy_with (some s) = not (is_ended s.phase)

-- True while a call is in progress (anything but ended or none).
abbrev pub is_busy : CallEngine → Bool
is_busy e = is_busy_with e.snap

abbrev pub is_current_in : ℕ → Option CallSnapshot → Bool
is_current_in call_id none = false
is_current_in call_id (some s) = not (is_ended s.phase) && s.call_id == call_id

abbrev pub is_current : CallEngine → ℕ → Bool
is_current e call_id = is_current_in call_id e.snap

-- `update`: the snapshot with a change, remembering whether there was video.
abbrev pub update_found :
    (CallSnapshot → CallSnapshot) → CallEngine → Option CallSnapshot → CallEngine
update_found f e none = e
update_found f e (some s) = record e {
  snap = some (f s);
  had_video = e.had_video || (f s).video_enabled;
}

abbrev pub update : (CallSnapshot → CallSnapshot) → CallEngine → CallEngine
update f e = update_found f e e.snap
