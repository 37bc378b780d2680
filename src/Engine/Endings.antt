-- ===== src/Engine/Endings.antt =====
-- The messages by which CallEngine (apps/web/src/features/calls/CallEngine.ts) begins calls and
-- ends them, over every run of events.
use videochat.Engine.State.{
  ice, send_invite, send_ringing, fetch_ice_servers, put_screen, CallEngine, idle, Out, then_do,
  is_busy, is_current,
}
use videochat.Engine.Peer.{restart_ice, on_signal, run_signal, ice_servers_ready}
use videochat.Engine.Operations.{
  outgoing_call, start_outgoing, accept, decline, hang_up, dismiss, on_signalling_reconnected,
  on_network_change, toggle_audio, give_up, on_connection_state, sample_stats,
}
use videochat.Engine.Video.{
  toggle_video, camera_ready, start_screen_share, set_sharing, screen_ready, stop_screen_share,
}
use videochat.Engine.Running.{
  incoming_snapshot, on_incoming, on_accepted, Event, starts_outgoing, accepts, declines, hangs_up,
  dismisses, toggles_audio, signalling_reconnects, network_changes, gets_incoming, gets_ringing,
  gets_resume, gets_accepted, gets_ended, gets_signal, gets_media, gets_ice_servers, runs_signal,
  connection_changes, finds_candidate, negotiation_starts, negotiation_ends, samples_stats,
  toggles_video, shares_screen, stops_sharing, gets_camera, gets_screen, set_remote_media, handle,
  is_due, fire_ice_restart, fire_reconnect, fire_due, step, run,
}
use videochat.Engine.Notices.{
  is_ending, is_beginning, one_if, Pays, quiet-Pays, either-Pays, finish-Pays, decline-Pays,
  hang_up-Pays, give_up-Pays, accept-Pays, dismiss-Pays, update-Pays,
}
use videochat.Engine.Paying.{
  toggle-Pays, network-Pays, begins-Pays, accepted-Pays, start_waiting-Pays, description-quiet,
  run_task-Pays, ringing_set-Pays, sampled-Pays, connection-Pays, negotiated-quiet, resume-quiet,
  shown-Pays, toggle_video-Pays, camera-Pays, share-Pays, stop_share-Pays,
}
use videochat.Prelude.{
  Bool-cases, count, count-append, ℕ, ◌+◌, ◌≤◌, refl, inl, inr, true, false, not, ◌&&◌, List, [],
  ◌∷◌, arith,
}

module _ (c : ℕ) where
  handle-Pays : (e : CallEngine) (now : ℕ) (event : Event) → Pays c e (handle e now event)
  unfolding handle start_outgoing accept decline hang_up dismiss toggle_audio
      on_signalling_reconnected on_network_change on_incoming restart_ice on_accepted
      ice_servers_ready run_signal sample_stats on_signal on_connection_state toggle_video
      start_screen_share stop_screen_share camera_ready screen_ready
  handle-Pays e now (starts_outgoing call_id conversation_id peer media has_camera) =
      either-Pays c e (is_busy e) _ _ (λ b. omega arith)
        (λ b.
          begins-Pays c e (outgoing_call call_id conversation_id peer media has_camera) false
            (fetch_ice_servers ∷ send_invite call_id conversation_id media ∷ []) refl
            (ground arith))
  handle-Pays e now (accepts has_camera) = accept-Pays c e e.snap has_camera refl
  handle-Pays e now declines = decline-Pays c e e.snap now refl
  handle-Pays e now hangs_up = hang_up-Pays c e e.snap now refl
  handle-Pays e now dismisses = dismiss-Pays c e e.snap refl
  handle-Pays e now toggles_audio = toggle-Pays c e e.snap
  handle-Pays e now signalling_reconnects = omega (arith, resume-quiet c e.snap)
  handle-Pays e now network_changes = network-Pays c e e.snap
  handle-Pays e now (gets_incoming call_id conversation_id media caller) =
      either-Pays c e (is_busy e) _ _ (λ b. quiet-Pays c e)
        (λ b.
          begins-Pays c e (incoming_snapshot call_id conversation_id media caller) e.polite
            (send_ringing call_id ∷ []) refl (ground arith))
  handle-Pays e now (gets_ringing call_id) = elim (Bool-cases (is_current e call_id)) [
    | inl b ↦ rw b (ringing_set-Pays c e e.snap)
    | inr b ↦ rw b (quiet-Pays c e)
  ]
  handle-Pays e now (gets_resume call_id) =
      either-Pays c e (is_current e call_id && not e.polite) _ _ (λ b. ground arith)
        (λ b. quiet-Pays c e)
  handle-Pays e now (gets_accepted call_id own) =
      either-Pays c e (is_current e call_id) _ _ (λ b. accepted-Pays c e e.snap own now refl)
        (λ b. quiet-Pays c e)
  handle-Pays e now (gets_ended call_id reason) =
      either-Pays c e (is_current e call_id) _ _ (λ b. finish-Pays c e reason now)
        (λ b. quiet-Pays c e)
  handle-Pays e now (gets_signal call_id signal) = ground arith
  handle-Pays e now (gets_media call_id sound picture screen) =
      ground
        (arith, update-Pays c (set_remote_media sound picture screen) e (λ s. refl) (λ s. refl))
  handle-Pays e now gets_ice_servers = start_waiting-Pays c e e.starting
  handle-Pays e now (runs_signal stable sdp) = run_task-Pays c e stable sdp e.signal_chain
  handle-Pays e now (connection_changes state) =
      either-Pays c e e.pc _ _ (λ b. connection-Pays c e e.snap state now refl)
        (λ b. quiet-Pays c e)
  handle-Pays e now (finds_candidate candidate) =
      ground (arith, description-quiet c e.snap (ice candidate))
  handle-Pays e now negotiation_starts = quiet-Pays c e
  handle-Pays e now (negotiation_ends description) =
      ground (arith, negotiated-quiet c e.snap description)
  handle-Pays e now (samples_stats is_poor is_low) = sampled-Pays c e e.snap is_poor is_low
  handle-Pays e now toggles_video = toggle_video-Pays c e e.snap
  handle-Pays e now shares_screen = share-Pays c e e.snap
  handle-Pays e now stops_sharing = stop_share-Pays c e e.snap
  handle-Pays e now (gets_camera call_id) = camera-Pays c e e.snap call_id
  handle-Pays e now (gets_screen call_id) =
      either-Pays c e (is_current e call_id) _ _
        (λ b. shown-Pays c e (set_sharing true) (put_screen ∷ []) refl (λ t. refl) (λ t. refl))
        (λ b. omega arith)

  then_do-Pays :
      (e : CallEngine) (o : Out) (f : CallEngine → Out)
      → Pays c e o
      → Pays c o.0 (f o.0)
      → Pays c e (then_do o f)
  then_do-Pays e o f first next = omega (
    arith,
    first,
    next,
    count-append (is_ending c) o.1 (f o.0).1,
    count-append (is_beginning c) o.1 (f o.0).1,
  )

  fire_due-Pays : (e : CallEngine) (now : ℕ) → Pays c e (fire_due e now)
  unfolding fire_due fire_ice_restart fire_reconnect restart_ice give_up
  fire_due-Pays e now =
      then_do-Pays e (fire_ice_restart e now) (λ f. fire_reconnect f now)
        (either-Pays c e (is_due e.ice_restart_timer now) _ _ (λ b. ground arith)
          (λ b. quiet-Pays c e))
        (let f : CallEngine = (fire_ice_restart e now).0 in
          either-Pays c f (is_due f.reconnect_timer now) _ _ (λ b. give_up-Pays c f f.snap now refl)
            (λ b. quiet-Pays c f))

  run-Pays : (e : CallEngine) (events : List (ℕ × Event)) → Pays c e (run e events)
  unfolding run step
  run-Pays e [] = quiet-Pays c e
  run-Pays e ((now, event) ∷ events) =
      then_do-Pays e (step e now event) (λ f. run f events)
        (then_do-Pays e (fire_due e now) (λ f. handle f now event) (fire_due-Pays e now)
          (handle-Pays (fire_due e now).0 now event))
        (run-Pays (step e now event).0 events)

-- Whatever happens to the engine, for each call: it sends at most as many messages that end the
-- call (decline, cancel and end together) as messages that begin it (invite, ringing), and one
-- fewer while the call goes on.
pub ends_once :
    (events : List (ℕ × Event)) (call_id : ℕ)
    → count (is_ending call_id) (run idle events).1
        + one_if (is_current (run idle events).0 call_id)
      ≤ count (is_beginning call_id) (run idle events).1
ends_once events call_id = omega (arith, run-Pays call_id idle events)
