-- ===== src/Engine/StillWaiting.antt =====
-- A call of CallEngine (apps/web/src/features/calls/CallEngine.ts) that waits for its reconnect
-- timer, through any event.
use videochat.Engine.State.{CallSnapshot, CallEngine, is_ended, is_outgoing, is_busy, is_current}
use videochat.Engine.Peer.{restart_ice, on_signal, run_signal, ice_servers_ready}
use videochat.Engine.Operations.{
  start_outgoing, accept, decline, hang_up, dismiss, has_media, on_signalling_reconnected,
  network_found, on_network_change, toggle_found, toggle_audio, ConnectionState, connected,
  disconnected, failed, other, connection_in, connection_found, on_connection_state, quality_of,
  sampled_found, sample_stats,
}
use videochat.Engine.Video.{
  toggle_video_in, toggle_video_found, toggle_video, with_camera, camera_found, camera_ready,
  share_found, start_screen_share, set_sharing, screen_ready, stop_share_found, stop_screen_share,
}
use videochat.Engine.Running.{
  on_incoming, on_accepted, Event, starts_outgoing, accepts, declines, hangs_up, dismisses,
  toggles_audio, signalling_reconnects, network_changes, gets_incoming, gets_ringing, gets_resume,
  gets_accepted, gets_ended, gets_signal, gets_media, gets_ice_servers, runs_signal,
  connection_changes, finds_candidate, negotiation_starts, negotiation_ends, samples_stats,
  toggles_video, shares_screen, stops_sharing, gets_camera, gets_screen, ringing_set,
  set_remote_media, handle,
}
use videochat.Engine.Phases.{either-holds, either_out-holds}
use videochat.Engine.Waiting.{
  waits_until, waits_or_ended, is_connected, finish-over, still, update-still, decline-still,
  hang_up-still, accept-still, dismiss-still, accepted-still, start_waiting-still, run_task-still,
}
use videochat.Prelude.{
  is_null, Option-cases, ℕ, ◌≡◌, refl, inl, inr, Bool, true, false, not, ◌&&◌, Option, none, some,
  arith,
}

module _ (time : ℕ) where
  toggle-still :
      (e : CallEngine) (o : Option CallSnapshot)
      → waits_until time e ≡ true
      → waits_or_ended time (toggle_found e o).0 ≡ true
  toggle-still e none h = still time e h
  toggle-still e (some s) h =
      either_out-holds (waits_or_ended time) (is_null s.local_stream) _ _ (λ b. still time e h)
        (update-still time (λ t. record t { audio_enabled = not s.audio_enabled }) e (λ t. refl) h)

  network-still :
      (e : CallEngine) (o : Option CallSnapshot)
      → waits_until time e ≡ true
      → waits_or_ended time (network_found e o).0 ≡ true
  unfolding restart_ice
  network-still e none h = still time e h
  network-still e (some s) h =
      either_out-holds (waits_or_ended time) (has_media s.phase) _ _ (λ b. still time e h)
        (still time e h)

  ringing_set-still :
      (e : CallEngine) (o : Option CallSnapshot)
      → waits_until time e ≡ true
      → waits_or_ended time (ringing_set o e) ≡ true
  ringing_set-still e none h = still time e h
  ringing_set-still e (some s) h =
      either-holds (waits_or_ended time) (is_outgoing s.phase) _ _
        (λ b. update-still time (λ t. record t { callee_ringing = true }) e (λ t. refl) h)
        (still time e h)

  sampled-still :
      (e : CallEngine) (o : Option CallSnapshot) (is_poor is_low : Bool)
      → waits_until time e ≡ true
      → waits_or_ended time (sampled_found e o is_poor is_low) ≡ true
  sampled-still e none is_poor is_low h = still time e h
  sampled-still e (some s) is_poor is_low h =
      either-holds (waits_or_ended time) (is_ended s.phase) _ _ (λ b. still time e h)
        (update-still time
          (λ t. record t {
            quality = quality_of is_poor;
            low_bandwidth = is_low && s.video_enabled;
          })
          e (λ t. refl) h)

  connection_in-still :
      (e : CallEngine) (s : CallSnapshot) (state : ConnectionState) (now : ℕ)
      → is_connected (connection_changes state) ≡ false
      → e.snap ≡ some s
      → waits_until time e ≡ true
      → waits_or_ended time (connection_in e s state now).0 ≡ true
  unfolding restart_ice
  connection_in-still e s connected now c eq h = cc
  connection_in-still e s disconnected now c eq h = ground (arith, eq, h)
  connection_in-still e s failed now c eq h = ground (arith, eq, h)
  connection_in-still e s other now c eq h = still time e h

  connection-still :
      (e : CallEngine) (o : Option CallSnapshot) (state : ConnectionState) (now : ℕ)
      → is_connected (connection_changes state) ≡ false
      → e.snap ≡ o
      → waits_until time e ≡ true
      → waits_or_ended time (connection_found e o state now).0 ≡ true
  connection-still e none state now c eq h = still time e h
  connection-still e (some s) state now c eq h =
      either_out-holds (waits_or_ended time) (is_ended s.phase) _ _ (λ b. still time e h)
        (connection_in-still e s state now c eq h)

  still_busy : (e : CallEngine) → waits_until time e ≡ true → is_busy e ≡ true
  still_busy e h = elim (Option-cases e.snap) [
    | inl eq ↦ absurd (ground (arith, eq, h))
    | inr (s, eq) ↦ ground (arith, eq, h)
  ]

  toggle_video_in-still :
      (e : CallEngine) (s : CallSnapshot) (o : Option Bool)
      → waits_until time e ≡ true
      → waits_or_ended time (toggle_video_in e s o).0 ≡ true
  toggle_video_in-still e s none h = still time e h
  toggle_video_in-still e s (some true) h =
      update-still time (λ t. record t { video_enabled = not s.video_enabled }) e (λ t. refl) h
  toggle_video_in-still e s (some false) h = still time e h

  toggle_video-still :
      (e : CallEngine) (o : Option CallSnapshot)
      → waits_until time e ≡ true
      → waits_or_ended time (toggle_video_found e o).0 ≡ true
  toggle_video-still e none h = still time e h
  toggle_video-still e (some s) h =
      either_out-holds (waits_or_ended time) (is_ended s.phase) _ _ (λ b. still time e h)
        (toggle_video_in-still e s s.local_stream h)

  camera-still :
      (e : CallEngine) (o : Option CallSnapshot) (call_id : ℕ)
      → waits_until time e ≡ true
      → waits_or_ended time (camera_found e o call_id).0 ≡ true
  camera-still e none call_id h = still time e h
  camera-still e (some s) call_id h =
      either_out-holds (waits_or_ended time) (is_ended s.phase) _ _ (λ b. still time e h)
        (update-still time (with_camera call_id) e (λ t. refl) h)

  share-still :
      (e : CallEngine) (o : Option CallSnapshot)
      → waits_until time e ≡ true
      → waits_or_ended time (share_found e o).0 ≡ true
  share-still e none h = still time e h
  share-still e (some s) h = still time e h

  stop_share-still :
      (e : CallEngine) (o : Option CallSnapshot)
      → waits_until time e ≡ true
      → waits_or_ended time (stop_share_found e o).0 ≡ true
  stop_share-still e none h = still time e h
  stop_share-still e (some s) h =
      either_out-holds (waits_or_ended time) s.sharing_screen _ _
        (λ b. update-still time (set_sharing false) e (λ t. refl) h) (still time e h)

  -- While it reconnects, an event that is no connection leaves the timer or ends the call.
  pub handle-still :
      (e : CallEngine) (now : ℕ) (event : Event)
      → is_connected event ≡ false
      → waits_until time e ≡ true
      → waits_or_ended time (handle e now event).0 ≡ true
  unfolding handle start_outgoing accept decline hang_up dismiss toggle_audio
      on_signalling_reconnected on_network_change on_incoming restart_ice on_accepted
      ice_servers_ready run_signal sample_stats on_signal on_connection_state toggle_video
      start_screen_share stop_screen_share camera_ready screen_ready
  handle-still e now (starts_outgoing call_id conversation_id peer media has_camera) c h =
      rw (still_busy e h) (still time e h)
  handle-still e now (accepts has_camera) c h = accept-still time e e.snap has_camera refl h
  handle-still e now declines c h = decline-still time e e.snap now h
  handle-still e now hangs_up c h = hang_up-still time e e.snap now h
  handle-still e now dismisses c h = dismiss-still time e e.snap refl h
  handle-still e now toggles_audio c h = toggle-still e e.snap h
  handle-still e now signalling_reconnects c h = still time e h
  handle-still e now network_changes c h = network-still e e.snap h
  handle-still e now (gets_incoming call_id conversation_id media caller) c h =
      rw (still_busy e h) (still time e h)
  handle-still e now (gets_ringing call_id) c h =
      either-holds (waits_or_ended time) (is_current e call_id) _ _
        (λ b. ringing_set-still e e.snap h) (still time e h)
  handle-still e now (gets_resume call_id) c h =
      either_out-holds (waits_or_ended time) (is_current e call_id && not e.polite) _ _
        (λ b. still time e h) (still time e h)
  handle-still e now (gets_accepted call_id own) c h =
      either_out-holds (waits_or_ended time) (is_current e call_id) _ _
        (λ b. accepted-still time e e.snap own now refl h) (still time e h)
  handle-still e now (gets_ended call_id reason) c h =
      either_out-holds (waits_or_ended time) (is_current e call_id) _ _
        (λ b. finish-over time e reason now) (still time e h)
  handle-still e now (gets_signal call_id signal) c h =
      either-holds (waits_or_ended time) (is_current e call_id) _ _
        (λ b. either-holds (waits_or_ended time) e.pc _ _ (λ d. still time e h) (still time e h))
        (still time e h)
  handle-still e now (gets_media call_id sound picture screen) c h =
      either-holds (waits_or_ended time) (is_current e call_id) _ _
        (λ b. update-still time (set_remote_media sound picture screen) e (λ s. refl) h)
        (still time e h)
  handle-still e now gets_ice_servers c h = start_waiting-still time e e.starting h
  handle-still e now (runs_signal stable sdp) c h =
      run_task-still time e stable sdp e.signal_chain h
  handle-still e now (connection_changes state) c h =
      either_out-holds (waits_or_ended time) e.pc _ _
        (λ b. connection-still e e.snap state now c refl h) (still time e h)
  handle-still e now (finds_candidate candidate) c h = still time e h
  handle-still e now negotiation_starts c h = still time e h
  handle-still e now (negotiation_ends description) c h = still time e h
  handle-still e now (samples_stats is_poor is_low) c h = sampled-still e e.snap is_poor is_low h
  handle-still e now toggles_video c h = toggle_video-still e e.snap h
  handle-still e now shares_screen c h = share-still e e.snap h
  handle-still e now stops_sharing c h = stop_share-still e e.snap h
  handle-still e now (gets_camera call_id) c h = camera-still e e.snap call_id h
  handle-still e now (gets_screen call_id) c h =
      either_out-holds (waits_or_ended time) (is_current e call_id) _ _
        (λ b. update-still time (set_sharing true) e (λ t. refl) h) (still time e h)
