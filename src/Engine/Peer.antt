-- ===== src/Engine/Peer.antt =====
-- Ending a call and its peer connection: `finish`, `reset`, `stopTimers`, `reportStats`,
-- `sendMediaState`, `startPeer` and the signals of CallEngine
-- (apps/web/src/features/calls/CallEngine.ts). What the browser's peer connection answers is an
-- argument; a description that it is given is taken to be accepted.
use Prim.Native.Nat.{◌/◌}
use videochat.Engine.State.{
  ended, CallEndCause, CallSnapshot, Signal, offer, answer, ice, Effect, send_media, send_signal,
  stop_stream, create_peer, close_peer, add_tracks, restart_peer_ice, set_remote_description,
  set_local_description, add_ice_candidate, report_stats, CallEngine, Out, quietly, is_ended,
  is_busy, is_current, update,
}
use videochat.Prelude.{
  if◌then◌else◌, ℕ, zero, suc, ◌+◌, ◌-◌, Bool, true, false, not, ◌&&◌, ◌||◌, Option, none, some,
  List, [], ◌∷◌, ◌++◌,
}

abbrev pub stop_timers : CallEngine → CallEngine
stop_timers e = record e { reconnect_timer = none; ice_restart_timer = none; stats_timer = false }

-- In seconds, rounded.
abbrev pub duration_of : Bool → Option ℕ → ℕ → ℕ
duration_of true (some start) now = (now - start + 500) / 1000
duration_of _ _ now = 0

abbrev pub close_effects : CallEngine → List Effect
close_effects e = if e.pc then close_peer ∷ [] else []

abbrev pub report_effects : CallEngine → CallSnapshot → CallEndCause → ℕ → List Effect
report_effects e s cause now =
    if e.pc
    then report_stats s.call_id (record {
      duration_sec = duration_of e.ever_connected s.started_at now;
      reconnects = e.reconnects;
      had_video = e.had_video || s.video_enabled;
      end_cause = cause;
    })
      ∷ []
    else []

abbrev pub ended_snapshot : CallEndCause → CallSnapshot → CallSnapshot
ended_snapshot cause s = record s { phase = ended; end_cause = some cause }

abbrev pub finish_found : CallEngine → Option CallSnapshot → CallEndCause → ℕ → Out
finish_found e none cause now = quietly e
finish_found e (some s) cause now = if is_ended s.phase then quietly e else (
  update (ended_snapshot cause) (record (stop_timers e) { pc = false }),
  report_effects e s cause now ++ close_effects e ++ stop_stream ∷ [],
)

unfoldable pub finish : CallEngine → CallEndCause → ℕ → Out
finish e cause now = finish_found e e.snap cause now

unfoldable pub reset : CallEngine → Out
reset e = (
  record (stop_timers e) {
    reconnects = 0;
    had_video = false;
    ever_connected = false;
    pc = false;
    pending_signals = [];
    making_offer = false;
    ignore_offer = false;
  },
  close_effects e,
)

abbrev pub media_effects : Bool → Option CallSnapshot → List Effect
media_effects pc none = []
media_effects pc (some s) =
    if pc
    then send_media s.call_id s.audio_enabled (s.video_enabled || s.sharing_screen) s.sharing_screen
      ∷ []
    else []

abbrev pub send_media_state : CallEngine → Out
send_media_state e = (e, media_effects e.pc e.snap)

unfoldable pub restart_ice : CallEngine → Out
restart_ice e = (e, if e.pc then restart_peer_ice ∷ [] else [])

unfoldable pub on_signal : CallEngine → ℕ → Signal → CallEngine
on_signal e call_id signal =
    if is_current e call_id
    then (if e.pc
        then record e { signal_chain = e.signal_chain ++ signal ∷ [] }
        else record e { pending_signals = e.pending_signals ++ signal ∷ [] })
    else e

-- `sendDescription`; the description is the browser's.
abbrev pub send_description : Option CallSnapshot → Signal → List Effect
send_description none description = []
send_description (some s) description = send_signal s.call_id description ∷ []

-- `applySignal`: whether the connection's signalling state is stable, and the answer that the
-- browser would make.
abbrev pub apply_offer : CallEngine → ℕ → Bool → Out
apply_offer e answer_sdp ignored = if ignored then quietly (record e { ignore_offer = true }) else (
  record e { ignore_offer = false },
  set_remote_description ∷ set_local_description ∷ send_description e.snap (answer answer_sdp),
)

abbrev pub apply_signal : CallEngine → Bool → ℕ → Signal → Out
apply_signal e stable answer_sdp (ice candidate) = (e, add_ice_candidate candidate ∷ [])
apply_signal e stable answer_sdp (answer sdp) =
    (record e { ignore_offer = false }, set_remote_description ∷ [])
apply_signal e stable answer_sdp (offer sdp) =
    apply_offer e answer_sdp (not e.polite && (e.making_offer || not stable))

-- The next task of the signal chain.
abbrev pub run_task : CallEngine → Bool → ℕ → List Signal → Out
run_task e stable answer_sdp [] = quietly e
run_task e stable answer_sdp (signal ∷ rest) =
    let left : CallEngine = record e { signal_chain = rest } in
    if e.pc then apply_signal left stable answer_sdp signal else quietly left

unfoldable pub run_signal : CallEngine → Bool → ℕ → Out
run_signal e stable answer_sdp = run_task e stable answer_sdp e.signal_chain

-- `startPeer` from where the ICE servers are there: `may_start` is its test.
abbrev pub may_start : CallEngine → Bool
may_start e = is_busy e && not e.pc

abbrev pub resume_starting : CallEngine → Out
resume_starting e =
    if may_start e
    then (
      record e {
        pc = true;
        signal_chain = e.signal_chain ++ e.pending_signals;
        pending_signals = [];
      },
      create_peer ∷ add_tracks ∷ [],
    )
    else quietly e

abbrev pub start_waiting : CallEngine → ℕ → Out
start_waiting e zero = quietly e
start_waiting e (suc n) = resume_starting (record e { starting = n })

unfoldable pub ice_servers_ready : CallEngine → Out
ice_servers_ready e = start_waiting e e.starting
