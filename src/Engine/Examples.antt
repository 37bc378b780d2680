-- ===== src/Engine/Examples.antt =====
-- The engine at concrete inputs: a call from user 7, answered, that loses its connection.
use videochat.Engine.State.{audio, video, incoming, cancelled, Effect, add_tracks, idle, is_current}
use videochat.Engine.Peer.{finish, reset, restart_ice, ice_servers_ready}
use videochat.Engine.Operations.{
  accept, on_signalling_reconnected, on_network_change, give_up, connected, disconnected,
  on_connection_state,
}
use videochat.Engine.Running.{
  on_incoming, Event, accepts, signalling_reconnects, network_changes, gets_incoming, gets_ended,
  gets_ice_servers, connection_changes, handle, fire_ice_restart, fire_reconnect, fire_due, step,
  run,
}
use videochat.Engine.Phases.{phase_of, is_well_formed}
use videochat.Engine.WellFormed.{stays_well_formed}
use videochat.Engine.GivesUp.{ends_within, gives_up}
use videochat.Engine.Notices.{is_ending, is_beginning, one_if}
use videochat.Engine.Endings.{ends_once}
use videochat.Prelude.{count, ℕ, ◌+◌, ◌≤◌, ◌≡◌, refl, Bool, true, false, some, List, [], ◌∷◌, ◌++◌}

abbrev call : List (ℕ × Event)
call =
    (0, gets_incoming 1 10 video 7)
    ∷ (1000, accepts true)
    ∷ (1100, gets_ice_servers)
    ∷ (1500, connection_changes connected)
    ∷ []

abbrev silence : List (ℕ × Event)
silence = (21000, network_changes) ∷ (36000, signalling_reconnects) ∷ []

-- The connection is lost at 20 s; the timer ends the call before the event at 36 s.
gave_up :
    count (is_ending 1) (run idle (call ++ (20000, connection_changes disconnected) ∷ silence)).1
    ≡ 1
unfolding run step handle fire_due fire_ice_restart fire_reconnect give_up finish reset accept
    ice_servers_ready on_incoming on_connection_state on_network_change restart_ice
    on_signalling_reconnected
gave_up = refl

stays_well_formed_example : is_well_formed (run idle call).0 ≡ true
stays_well_formed_example = stays_well_formed call

gives_up_example :
    ends_within (step (run idle call).0 20000 (connection_changes disconnected)).0 silence ≡ true
unfolding run step handle fire_due fire_ice_restart fire_reconnect give_up finish reset accept
    ice_servers_ready on_incoming on_connection_state on_network_change restart_ice
    on_signalling_reconnected
gives_up_example =
    gives_up call silence disconnected 20000 refl refl refl refl (refl, (refl, tt)) refl

ends_once_example :
    count (is_ending 1) (run idle call).1 + one_if (is_current (run idle call).0 1)
    ≤ count (is_beginning 1) (run idle call).1
ends_once_example = ends_once call 1

abbrev is_tracks : Effect → Bool
is_tracks add_tracks = true
is_tracks _ = false

-- Call 1 is answered and ends before the ICE servers are there; they arrive while call 2 rings,
-- which then gets a peer connection before it is answered, and its own tracks never.
abbrev overtaken : List (ℕ × Event)
overtaken =
    (0, gets_incoming 1 10 audio 7)
    ∷ (10, accepts false)
    ∷ (20, gets_ended 1 cancelled)
    ∷ (30, gets_incoming 2 10 audio 7)
    ∷ (40, gets_ice_servers)
    ∷ []

peer_while_ringing :
    ((run idle overtaken).0.pc ≡ true) × (phase_of (run idle overtaken).0.snap ≡ some incoming)
unfolding run step handle fire_due fire_ice_restart fire_reconnect give_up finish reset accept
    ice_servers_ready on_incoming on_connection_state on_network_change restart_ice
    on_signalling_reconnected
peer_while_ringing = (refl, refl)

no_tracks_after_answer :
    count is_tracks
      (run (run idle overtaken).0 ((50, accepts false) ∷ (60, gets_ice_servers) ∷ [])).1
    ≡ 0
unfolding run step handle fire_due fire_ice_restart fire_reconnect give_up finish reset accept
    ice_servers_ready on_incoming on_connection_state on_network_change restart_ice
    on_signalling_reconnected
no_tracks_after_answer = refl
