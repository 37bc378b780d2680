-- ===== src/Engine/Paying.antt =====
-- The methods of CallEngine (apps/web/src/features/calls/CallEngine.ts) that keep the call going,
-- by the messages that begin and end calls.
use videochat.Engine.State.{
  Direction, placed, received, answered_elsewhere, CallSnapshot, Signal, offer, answer, ice, Effect,
  stop_stream, put_camera, CallEngine, quietly, after, is_ended, update,
}
use videochat.Engine.Peer.{
  close_effects, reset, media_effects, send_media_state, restart_ice, send_description, run_task,
  may_start, start_waiting,
}
use videochat.Engine.Operations.{
  resume_effects, network_found, toggle_found, ConnectionState, connected, disconnected, failed,
  other, connected_snapshot, connection_in, connection_found, quality_of, sampled_found,
}
use videochat.Engine.Video.{
  toggle_video_in, toggle_video_found, with_camera, camera_effects, camera_found, share_found,
  set_sharing, stop_share_found,
}
use videochat.Engine.Running.{accepted_by, accepted_found, ringing_set, negotiated}
use videochat.Engine.Notices.{
  is_ending, is_beginning, one_if, Pays, quiet-Pays, either-Pays, finish-Pays, update-Pays,
}
use videochat.Prelude.{
  ◌==◌, is_null, count, count-append, ℕ, zero, suc, ◌≤◌, ◌≡◌, refl, Bool, true, false, not, ◌&&◌,
  ◌||◌, Option, none, some, List, [], ◌∷◌, ◌++◌, arith,
}

module _ (c : ℕ) where
  media-quiet : (pc : Bool) (o : Option CallSnapshot) → count (is_ending c) (media_effects pc o) ≡ 0
  media-quiet pc none = refl
  media-quiet true (some s) = refl
  media-quiet false (some s) = refl

  close-quiet : (e : CallEngine) → count (is_ending c) (close_effects e) ≡ 0
  close-quiet e = ground arith

  pub toggle-Pays : (e : CallEngine) (o : Option CallSnapshot) → Pays c e (toggle_found e o)
  toggle-Pays e none = quiet-Pays c e
  toggle-Pays e (some s) =
      let flip : CallSnapshot → CallSnapshot =
        λ t. record t { audio_enabled = not s.audio_enabled } in
      either-Pays c e (is_null s.local_stream) _ _ (λ b. quiet-Pays c e)
        (λ b.
          rw (update-Pays c flip e (λ t. refl) (λ t. refl))
            (omega (arith, media-quiet (update flip e).pc (update flip e).snap)))

  pub network-Pays : (e : CallEngine) (o : Option CallSnapshot) → Pays c e (network_found e o)
  unfolding restart_ice
  network-Pays e none = quiet-Pays c e
  network-Pays e (some s) = ground arith

  pub begins-Pays :
      (e : CallEngine) (s : CallSnapshot) (polite : Bool) (messages : List Effect)
      → count (is_ending c) messages ≡ 0
      → one_if (s.call_id == c) ≤ count (is_beginning c) messages
      → Pays c e (record (reset e).0 { polite = polite; snap = some s }, (reset e).1 ++ messages)
  unfolding reset
  begins-Pays e s polite messages quiet begin = ground (
    arith,
    count-append (is_ending c) (close_effects e) messages,
    count-append (is_beginning c) (close_effects e) messages,
    close-quiet e,
    quiet,
    begin,
  )

  accepted_by-Pays :
      (e : CallEngine) (s : CallSnapshot) (d : Direction) (own : Bool) (now : ℕ)
      → e.snap ≡ some s
      → Pays c e (accepted_by e s d own now)
  accepted_by-Pays e s received true now eq = quiet-Pays c e
  accepted_by-Pays e s received false now eq = finish-Pays c e answered_elsewhere now
  accepted_by-Pays e s placed own now eq = ground (arith, eq)

  pub accepted-Pays :
      (e : CallEngine) (o : Option CallSnapshot) (own : Bool) (now : ℕ)
      → e.snap ≡ o
      → Pays c e (accepted_found e o own now)
  accepted-Pays e none own now eq = quiet-Pays c e
  accepted-Pays e (some s) own now eq = accepted_by-Pays e s s.direction own now eq

  pub start_waiting-Pays : (e : CallEngine) (n : ℕ) → Pays c e (start_waiting e n)
  start_waiting-Pays e zero = quiet-Pays c e
  start_waiting-Pays e (suc n) =
      let f : CallEngine = record e { starting = n } in
      either-Pays c f (may_start f) _ _ (λ b. omega arith) (λ b. omega arith)

  pub description-quiet :
      (o : Option CallSnapshot) (description : Signal)
      → count (is_ending c) (send_description o description) ≡ 0
  description-quiet none description = refl
  description-quiet (some s) description = refl

  pub run_task-Pays :
      (e : CallEngine) (stable : Bool) (sdp : ℕ) (tasks : List Signal)
      → Pays c e (run_task e stable sdp tasks)
  run_task-Pays e stable sdp [] = quiet-Pays c e
  run_task-Pays e stable sdp (ice candidate ∷ rest) =
      either-Pays c e e.pc _ _ (λ b. omega arith) (λ b. omega arith)
  run_task-Pays e stable sdp (answer description ∷ rest) =
      either-Pays c e e.pc _ _ (λ b. omega arith) (λ b. omega arith)
  run_task-Pays e stable sdp (offer description ∷ rest) =
      either-Pays c e e.pc _ _
        (λ b.
          either-Pays c e (not e.polite && (e.making_offer || not stable)) _ _ (λ d. omega arith)
            (λ d. omega (arith, description-quiet e.snap (answer sdp))))
        (λ b. omega arith)

  pub ringing_set-Pays :
      (e : CallEngine) (o : Option CallSnapshot) → Pays c e (quietly (ringing_set o e))
  ringing_set-Pays e none = quiet-Pays c e
  ringing_set-Pays e (some s) =
      ground
        (arith, update-Pays c (λ t. record t { callee_ringing = true }) e (λ t. refl) (λ t. refl))

  pub sampled-Pays :
      (e : CallEngine) (o : Option CallSnapshot) (is_poor is_low : Bool)
      → Pays c e (quietly (sampled_found e o is_poor is_low))
  sampled-Pays e none is_poor is_low = quiet-Pays c e
  sampled-Pays e (some s) is_poor is_low = ground (
    arith,
    update-Pays c
        (λ t. record t { quality = quality_of is_poor; low_bandwidth = is_low && s.video_enabled })
        e (λ t. refl) (λ t. refl),
  )

  connection_in-Pays :
      (e : CallEngine) (s : CallSnapshot) (state : ConnectionState) (now : ℕ)
      → e.snap ≡ some s
      → is_ended s.phase ≡ false
      → Pays c e (connection_in e s state now)
  unfolding restart_ice
  connection_in-Pays e s connected now eq going =
      ground (arith, eq, going, media-quiet e.pc (some (connected_snapshot now s)))
  connection_in-Pays e s disconnected now eq going = ground (arith, eq, going)
  connection_in-Pays e s failed now eq going = ground (arith, eq, going)
  connection_in-Pays e s other now eq going = quiet-Pays c e

  pub connection-Pays :
      (e : CallEngine) (o : Option CallSnapshot) (state : ConnectionState) (now : ℕ)
      → e.snap ≡ o
      → Pays c e (connection_found e o state now)
  connection-Pays e none state now eq = quiet-Pays c e
  connection-Pays e (some s) state now eq =
      either-Pays c e (is_ended s.phase) _ _ (λ b. quiet-Pays c e)
        (λ b. connection_in-Pays e s state now eq b)

  pub negotiated-quiet :
      (o : Option CallSnapshot) (description : Option ℕ)
      → count (is_ending c) (negotiated o description) ≡ 0
  negotiated-quiet o none = refl
  negotiated-quiet none (some sdp) = refl
  negotiated-quiet (some s) (some sdp) = refl

  pub resume-quiet : (o : Option CallSnapshot) → count (is_ending c) (resume_effects o) ≡ 0
  resume-quiet none = refl
  resume-quiet (some s) = ground arith

  -- A change of what is shown, with effects that begin and end no call.
  pub shown-Pays :
      (e : CallEngine) (f : CallSnapshot → CallSnapshot) (effects : List Effect)
      → count (is_ending c) effects ≡ 0
      → ((s : CallSnapshot) → (f s).phase ≡ s.phase)
      → ((s : CallSnapshot) → (f s).call_id ≡ s.call_id)
      → Pays c e (after effects (send_media_state (update f e)))
  shown-Pays e f effects quiet same_phase same_id =
      let media : List Effect = media_effects (update f e).pc (update f e).snap in
      rw (update-Pays c f e same_phase same_id) (
        omega (
          arith,
          quiet,
          count-append (is_ending c) effects media,
          media-quiet (update f e).pc (update f e).snap,
        ))

  toggle_video_in-Pays :
      (e : CallEngine) (s : CallSnapshot) (o : Option Bool) → Pays c e (toggle_video_in e s o)
  toggle_video_in-Pays e s none = quiet-Pays c e
  toggle_video_in-Pays e s (some true) =
      shown-Pays e (λ t. record t { video_enabled = not s.video_enabled }) [] refl (λ t. refl)
        (λ t. refl)
  toggle_video_in-Pays e s (some false) = omega arith

  pub toggle_video-Pays :
      (e : CallEngine) (o : Option CallSnapshot) → Pays c e (toggle_video_found e o)
  toggle_video-Pays e none = quiet-Pays c e
  toggle_video-Pays e (some s) =
      either-Pays c e (is_ended s.phase) _ _ (λ b. quiet-Pays c e)
        (λ b. toggle_video_in-Pays e s s.local_stream)

  pub camera-Pays :
      (e : CallEngine) (o : Option CallSnapshot) (call_id : ℕ) → Pays c e (camera_found e o call_id)
  camera-Pays e none call_id = omega arith
  camera-Pays e (some s) call_id =
      either-Pays c e (is_ended s.phase) _ _ (λ b. omega arith)
        (λ b.
          shown-Pays e (with_camera call_id) (camera_effects e s) (ground arith) (λ t. refl)
            (λ t. refl))

  pub share-Pays : (e : CallEngine) (o : Option CallSnapshot) → Pays c e (share_found e o)
  share-Pays e none = quiet-Pays c e
  share-Pays e (some s) = ground arith

  pub stop_share-Pays : (e : CallEngine) (o : Option CallSnapshot) → Pays c e (stop_share_found e o)
  stop_share-Pays e none = quiet-Pays c e
  stop_share-Pays e (some s) =
      either-Pays c e s.sharing_screen _ _
        (λ b.
          shown-Pays e (set_sharing false) (put_camera ∷ stop_stream ∷ []) refl (λ t. refl)
            (λ t. refl))
        (λ b. quiet-Pays c e)
