-- ===== src/Engine/WellFormed.antt =====
-- What holds of CallEngine (apps/web/src/features/calls/CallEngine.ts) between two events.
use videochat.Engine.State.{
  connection_lost, CallSnapshot, Signal, offer, answer, ice, CallEngine, idle, is_ended,
  is_reconnecting, is_busy, is_current,
}
use videochat.Engine.Peer.{
  restart_ice, on_signal, apply_signal, run_task, run_signal, start_waiting, ice_servers_ready,
}
use videochat.Engine.Operations.{
  outgoing_call, start_outgoing, accept, decline, hang_up, dismiss, on_signalling_reconnected,
  network_found, on_network_change, toggle_found, toggle_audio, give_up_found, give_up, quality_of,
  sampled_found, sample_stats,
}
use videochat.Engine.Video.{
  toggle_video_in, toggle_video_found, toggle_video, with_camera, camera_found, camera_ready,
  share_found, start_screen_share, set_sharing, screen_ready, stop_share_found, stop_screen_share,
}
use videochat.Engine.Running.{
  incoming_snapshot, on_incoming, on_accepted, Event, starts_outgoing, accepts, declines, hangs_up,
  dismisses, toggles_audio, signalling_reconnects, network_changes, gets_incoming, gets_ringing,
  gets_resume, gets_accepted, gets_ended, gets_signal, gets_media, gets_ice_servers, runs_signal,
  connection_changes, finds_candidate, negotiation_starts, negotiation_ends, samples_stats,
  toggles_video, shares_screen, stops_sharing, gets_camera, gets_screen, ringing_set,
  set_remote_media, handle, is_due, fire_ice_restart, fire_reconnect, fire_due, step, run,
}
use videochat.Engine.Phases.{
  is_well_formed, either-holds, either_out-holds, finish-well, on_connection_state-well,
  decline_found-well, hang_up-well, accept_found-well, dismiss_found-well, update-well, begins-well,
  accepted_found-well,
}
use videochat.Prelude.{
  is_null, Bool-cases, Option-cases, ℕ, zero, suc, ◌≡◌, refl, inl, inr, Bool, true, false, not,
  ◌&&◌, Option, none, some, List, [], ◌∷◌, arith,
}

start_waiting-well :
    (e : CallEngine) (n : ℕ) → is_well_formed e ≡ true → is_well_formed (start_waiting e n).0 ≡ true
start_waiting-well e zero h = h
start_waiting-well e (suc n) h = elim (Option-cases e.snap) [
  | inl eq ↦ ground (arith, eq, h)
  | inr (s, eq) ↦ ground (arith, eq, h)
]

apply_signal-well :
    (e : CallEngine) (stable : Bool) (sdp : ℕ) (signal : Signal)
    → is_well_formed e ≡ true
    → is_well_formed (apply_signal e stable sdp signal).0 ≡ true
apply_signal-well e stable sdp (ice candidate) h = h
apply_signal-well e stable sdp (answer description) h = h
apply_signal-well e stable sdp (offer description) h = ground (arith, h)

run_task-well :
    (e : CallEngine) (stable : Bool) (sdp : ℕ) (tasks : List Signal)
    → is_well_formed e ≡ true
    → is_well_formed (run_task e stable sdp tasks).0 ≡ true
run_task-well e stable sdp [] h = h
run_task-well e stable sdp (signal ∷ rest) h =
    let left : CallEngine = record e { signal_chain = rest } in
    either_out-holds is_well_formed e.pc _ _ (λ pc. apply_signal-well left stable sdp signal h) h

toggle_found-well :
    (e : CallEngine) (o : Option CallSnapshot)
    → is_well_formed e ≡ true
    → is_well_formed (toggle_found e o).0 ≡ true
toggle_found-well e none h = h
toggle_found-well e (some s) h = elim (Bool-cases (is_null s.local_stream)) [
  | inl no_stream ↦ rw no_stream h
  | inr stream ↦
      rw stream
        (update-well (λ t. record t { audio_enabled = not s.audio_enabled }) e (λ t. refl) h)
]

network_found-well :
    (e : CallEngine) (o : Option CallSnapshot)
    → is_well_formed e ≡ true
    → is_well_formed (network_found e o).0 ≡ true
unfolding restart_ice
network_found-well e none h = h
network_found-well e (some s) h = ground (arith, h)

ringing_set-well :
    (e : CallEngine) (o : Option CallSnapshot)
    → is_well_formed e ≡ true
    → is_well_formed (ringing_set o e) ≡ true
ringing_set-well e none h = h
ringing_set-well e (some s) h =
    ground (arith, h, update-well (λ t. record t { callee_ringing = true }) e (λ t. refl) h)

sampled_found-well :
    (e : CallEngine) (o : Option CallSnapshot) (is_poor is_low : Bool)
    → is_well_formed e ≡ true
    → is_well_formed (sampled_found e o is_poor is_low) ≡ true
sampled_found-well e none is_poor is_low h = h
sampled_found-well e (some s) is_poor is_low h = ground (
  arith,
  h,
  update-well
      (λ t. record t { quality = quality_of is_poor; low_bandwidth = is_low && s.video_enabled }) e
      (λ t. refl) h,
)

on_signal-well :
    (e : CallEngine) (call_id : ℕ) (signal : Signal)
    → is_well_formed e ≡ true
    → is_well_formed (on_signal e call_id signal) ≡ true
unfolding on_signal
on_signal-well e call_id signal h = ground (arith, h)

toggle_video_in-well :
    (e : CallEngine) (s : CallSnapshot) (o : Option Bool)
    → is_well_formed e ≡ true
    → is_well_formed (toggle_video_in e s o).0 ≡ true
toggle_video_in-well e s none h = h
toggle_video_in-well e s (some true) h =
    update-well (λ t. record t { video_enabled = not s.video_enabled }) e (λ t. refl) h
toggle_video_in-well e s (some false) h = h

toggle_video_found-well :
    (e : CallEngine) (o : Option CallSnapshot)
    → is_well_formed e ≡ true
    → is_well_formed (toggle_video_found e o).0 ≡ true
toggle_video_found-well e none h = h
toggle_video_found-well e (some s) h =
    either_out-holds is_well_formed (is_ended s.phase) _ _ (λ b. h)
      (toggle_video_in-well e s s.local_stream h)

camera_found-well :
    (e : CallEngine) (o : Option CallSnapshot) (call_id : ℕ)
    → is_well_formed e ≡ true
    → is_well_formed (camera_found e o call_id).0 ≡ true
camera_found-well e none call_id h = h
camera_found-well e (some s) call_id h =
    either_out-holds is_well_formed (is_ended s.phase) _ _ (λ b. h)
      (update-well (with_camera call_id) e (λ t. refl) h)

share_found-well :
    (e : CallEngine) (o : Option CallSnapshot)
    → is_well_formed e ≡ true
    → is_well_formed (share_found e o).0 ≡ true
share_found-well e none h = h
share_found-well e (some s) h = h

stop_share_found-well :
    (e : CallEngine) (o : Option CallSnapshot)
    → is_well_formed e ≡ true
    → is_well_formed (stop_share_found e o).0 ≡ true
stop_share_found-well e none h = h
stop_share_found-well e (some s) h =
    either_out-holds is_well_formed s.sharing_screen _ _
      (λ b. update-well (set_sharing false) e (λ t. refl) h) h

handle-well :
    (e : CallEngine) (now : ℕ) (event : Event)
    → is_well_formed e ≡ true
    → is_well_formed (handle e now event).0 ≡ true
unfolding handle start_outgoing accept decline hang_up dismiss toggle_audio
    on_signalling_reconnected on_network_change on_incoming restart_ice on_accepted
    ice_servers_ready run_signal sample_stats toggle_video start_screen_share stop_screen_share
    camera_ready screen_ready
handle-well e now (starts_outgoing call_id conversation_id peer media has_camera) h =
    either_out-holds is_well_formed (is_busy e) _ _ (λ busy. h)
      (begins-well e (outgoing_call call_id conversation_id peer media has_camera) false refl refl)
handle-well e now (accepts has_camera) h = accept_found-well e e.snap has_camera refl h
handle-well e now declines h = decline_found-well e e.snap now h
handle-well e now hangs_up h = hang_up-well e e.snap now h
handle-well e now dismisses h = dismiss_found-well e e.snap refl h
handle-well e now toggles_audio h = toggle_found-well e e.snap h
handle-well e now signalling_reconnects h = h
handle-well e now network_changes h = network_found-well e e.snap h
handle-well e now (gets_incoming call_id conversation_id media caller) h =
    either_out-holds is_well_formed (is_busy e) _ _ (λ busy. h)
      (begins-well e (incoming_snapshot call_id conversation_id media caller) e.polite refl refl)
handle-well e now (gets_ringing call_id) h =
    either-holds is_well_formed (is_current e call_id) _ _ (λ b. ringing_set-well e e.snap h) h
handle-well e now (gets_resume call_id) h =
    either_out-holds is_well_formed (is_current e call_id && not e.polite) _ _ (λ b. h) h
handle-well e now (gets_accepted call_id own) h =
    either_out-holds is_well_formed (is_current e call_id) _ _
      (λ b. accepted_found-well e e.snap own now refl h) h
handle-well e now (gets_ended call_id reason) h =
    either_out-holds is_well_formed (is_current e call_id) _ _ (λ b. finish-well e reason now h) h
handle-well e now (gets_signal call_id signal) h = on_signal-well e call_id signal h
handle-well e now (gets_media call_id sound picture screen) h =
    either-holds is_well_formed (is_current e call_id) _ _
      (λ b. update-well (set_remote_media sound picture screen) e (λ s. refl) h) h
handle-well e now gets_ice_servers h = start_waiting-well e e.starting h
handle-well e now (runs_signal stable sdp) h = run_task-well e stable sdp e.signal_chain h
handle-well e now (connection_changes state) h = on_connection_state-well e state now h
handle-well e now (finds_candidate candidate) h = h
handle-well e now negotiation_starts h = h
handle-well e now (negotiation_ends description) h = h
handle-well e now (samples_stats is_poor is_low) h = sampled_found-well e e.snap is_poor is_low h
handle-well e now toggles_video h = toggle_video_found-well e e.snap h
handle-well e now shares_screen h = share_found-well e e.snap h
handle-well e now stops_sharing h = stop_share_found-well e e.snap h
handle-well e now (gets_camera call_id) h = camera_found-well e e.snap call_id h
handle-well e now (gets_screen call_id) h =
    either_out-holds is_well_formed (is_current e call_id) _ _
      (λ b. update-well (set_sharing true) e (λ t. refl) h) h

give_up_found-well :
    (e : CallEngine) (o : Option CallSnapshot) (now : ℕ)
    → is_well_formed e ≡ true
    → is_well_formed (give_up_found e o now).0 ≡ true
give_up_found-well e none now h = h
give_up_found-well e (some s) now h =
    either_out-holds is_well_formed (is_reconnecting s.phase) _ _
      (λ b. finish-well e connection_lost now h) h

-- Without a restart timer.
still-well :
    (e : CallEngine)
    → is_well_formed e ≡ true
    → is_well_formed (record e { ice_restart_timer = none }) ≡ true
still-well e h = elim (Option-cases e.snap) [
  | inl eq ↦ ground (arith, eq, h)
  | inr (s, eq) ↦ ground (arith, eq, h)
]

fire_due-well :
    (e : CallEngine) (now : ℕ) → is_well_formed e ≡ true → is_well_formed (fire_due e now).0 ≡ true
unfolding fire_due fire_ice_restart fire_reconnect restart_ice give_up
fire_due-well e now h =
    let f : CallEngine = (fire_ice_restart e now).0 in
    let hf : is_well_formed f ≡ true =
      either_out-holds is_well_formed (is_due e.ice_restart_timer now) _ _ (λ b. still-well e h)
        h in
    either_out-holds is_well_formed (is_due f.reconnect_timer now) _ _
      (λ b. give_up_found-well f f.snap now hf) hf

step-well :
    (e : CallEngine) (now : ℕ) (event : Event)
    → is_well_formed e ≡ true
    → is_well_formed (step e now event).0 ≡ true
unfolding step
step-well e now event h = handle-well (fire_due e now).0 now event (fire_due-well e now h)

run-well :
    (e : CallEngine) (events : List (ℕ × Event))
    → is_well_formed e ≡ true
    → is_well_formed (run e events).0 ≡ true
unfolding run
run-well e [] h = h
run-well e ((now, event) ∷ events) h =
    run-well (step e now event).0 events (step-well e now event h)

-- Whatever the user, the server, the browser and the timers do, in any order: without a call or
-- with one that has ended there is no peer connection and no timer; the reconnect timer runs
-- exactly while the call is reconnecting; a call that is active or reconnecting has a peer
-- connection; and no call that waits to connect polls its statistics.
pub stays_well_formed : (events : List (ℕ × Event)) → is_well_formed (run idle events).0 ≡ true
stays_well_formed events = run-well idle events refl
