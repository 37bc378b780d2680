-- ===== src/Engine/Video.antt =====
-- The camera and the shared screen: `toggleVideo`, `startScreenShare` and `stopScreenShare` of
-- CallEngine (apps/web/src/features/calls/CallEngine.ts). What follows a request to the browser
-- is a function of its own, with the call that the request was made in. Which sender carries the
-- picture is left out: `put_camera` and `put_screen` stand for it.
use videochat.Engine.State.{
  CallSnapshot, Effect, stop_stream, request_camera, request_screen, put_camera, put_screen,
  CallEngine, Out, quietly, after, is_ended, is_current, update,
}
use videochat.Engine.Peer.{send_media_state}
use videochat.Engine.Operations.{has_media}
use videochat.Prelude.{
  ◌==◌, if◌then◌else◌, is_null, ℕ, Bool, true, false, not, ◌&&◌, Option, none, some, List, [], ◌∷◌,
}

abbrev pub toggle_video_in : CallEngine → CallSnapshot → Option Bool → Out
toggle_video_in e s none = quietly e
toggle_video_in e s (some true) =
    send_media_state (update (λ t. record t { video_enabled = not s.video_enabled }) e)
toggle_video_in e s (some false) = (e, request_camera ∷ [])

abbrev pub toggle_video_found : CallEngine → Option CallSnapshot → Out
toggle_video_found e none = quietly e
toggle_video_found e (some s) =
    if is_ended s.phase then quietly e else toggle_video_in e s s.local_stream

unfoldable pub toggle_video : CallEngine → Out
toggle_video e = toggle_video_found e e.snap

-- `toggleVideo` from where the camera is there; the track goes to the stream of the call that it
-- was asked for.
abbrev pub with_camera : ℕ → CallSnapshot → CallSnapshot
with_camera call_id t = record t {
  local_stream = if t.call_id == call_id then some true else t.local_stream;
  video_enabled = true;
}

abbrev pub camera_effects : CallEngine → CallSnapshot → List Effect
camera_effects e s = if e.pc && not s.sharing_screen then put_camera ∷ [] else []

abbrev pub camera_found : CallEngine → Option CallSnapshot → ℕ → Out
camera_found e none call_id = (e, stop_stream ∷ [])
camera_found e (some s) call_id =
    if is_ended s.phase
    then (e, stop_stream ∷ [])
    else after (camera_effects e s) (send_media_state (update (with_camera call_id) e))

unfoldable pub camera_ready : CallEngine → ℕ → Out
camera_ready e call_id = camera_found e e.snap call_id

abbrev pub may_share : CallEngine → CallSnapshot → Bool
may_share e s = not (is_null s.local_stream) && e.pc && not s.sharing_screen && has_media s.phase

abbrev pub share_found : CallEngine → Option CallSnapshot → Out
share_found e none = quietly e
share_found e (some s) = (e, if may_share e s then request_screen ∷ [] else [])

unfoldable pub start_screen_share : CallEngine → Out
start_screen_share e = share_found e e.snap

abbrev pub set_sharing : Bool → CallSnapshot → CallSnapshot
set_sharing sharing t = record t { sharing_screen = sharing }

-- `startScreenShare` from where a screen was picked.
unfoldable pub screen_ready : CallEngine → ℕ → Out
screen_ready e call_id =
    if is_current e call_id
    then after (put_screen ∷ []) (send_media_state (update (set_sharing true) e))
    else (e, stop_stream ∷ [])

abbrev pub stop_share_found : CallEngine → Option CallSnapshot → Out
stop_share_found e none = quietly e
stop_share_found e (some s) =
    if s.sharing_screen
    then after (put_camera ∷ stop_stream ∷ []) (send_media_state (update (set_sharing false) e))
    else quietly e

unfoldable pub stop_screen_share : CallEngine → Out
stop_screen_share e = stop_share_found e e.snap
