-- ===== src/Engine/Phases.antt =====
-- Which timers run and whether there is a peer connection, for each phase of the call of CallEngine
-- (apps/web/src/features/calls/CallEngine.ts), through what begins and ends calls.
use videochat.Engine.State.{
  Direction, placed, received, CallPhase, outgoing, incoming, connecting, active, reconnecting,
  ended, CallEndCause, cancelled, declined, completed, answered_elsewhere, CallSnapshot, CallEngine,
  Out, is_ended, update_found, update,
}
use videochat.Engine.Peer.{finish_found, finish, reset, restart_ice}
use videochat.Engine.Operations.{
  accept_found, decline_found, decline, hang_up_in, hang_up_found, dismiss_found, is_answered,
  ConnectionState, connected, disconnected, failed, other, connection_found, on_connection_state,
}
use videochat.Engine.Running.{accepted_by, accepted_found}
use videochat.Prelude.{
  if◌then◌else◌, is_null, ℕ, ◌≡◌, refl, Bool, true, false, not, ◌&&◌, Option, none, some, arith,
}

abbrev pub phase_of : Option CallSnapshot → Option CallPhase
phase_of none = none
phase_of (some s) = some s.phase

-- For a phase: whether there is a peer connection, no reconnect timer, no restart timer, and
-- whether the statistics are polled.
abbrev pub is_consistent : Option CallPhase → Bool → Bool → Bool → Bool → Bool
is_consistent none pc calm still polls = not pc && calm && still && not polls
is_consistent (some ended) pc calm still polls = not pc && calm && still && not polls
is_consistent (some reconnecting) pc calm still polls = pc && not calm
is_consistent (some active) pc calm still polls = pc && calm && still && polls
is_consistent (some _) pc calm still polls = calm && still && not polls

abbrev pub is_well_formed : CallEngine → Bool
is_well_formed e =
    is_consistent (phase_of e.snap) e.pc (is_null e.reconnect_timer) (is_null e.ice_restart_timer)
      e.stats_timer

-- Either way of a test.
module _ (P : CallEngine → Bool) where
  pub either-holds :
      (b : Bool) (x y : CallEngine)
      → (b ≡ true → P x ≡ true)
      → P y ≡ true
      → P (if b then x else y) ≡ true
  either-holds true x y hx hy = hx refl
  either-holds false x y hx hy = hy

  pub either_out-holds :
      (b : Bool) (x y : Out)
      → (b ≡ true → P x.0 ≡ true)
      → P y.0 ≡ true
      → P (if b then x else y).0 ≡ true
  either_out-holds true x y hx hy = hx refl
  either_out-holds false x y hx hy = hy

finish_found-well :
    (e : CallEngine) (o : Option CallSnapshot) (cause : CallEndCause) (now : ℕ)
    → e.snap ≡ o
    → is_well_formed e ≡ true
    → is_well_formed (finish_found e o cause now).0 ≡ true
finish_found-well e none cause now eq h = h
finish_found-well e (some s) cause now eq h = ground (arith, eq, h)

pub finish-well :
    (e : CallEngine) (cause : CallEndCause) (now : ℕ)
    → is_well_formed e ≡ true
    → is_well_formed (finish e cause now).0 ≡ true
unfolding finish
finish-well e cause now h = finish_found-well e e.snap cause now refl h

connection-well :
    (e : CallEngine) (o : Option CallSnapshot) (state : ConnectionState) (now : ℕ)
    → e.snap ≡ o
    → e.pc ≡ true
    → is_well_formed e ≡ true
    → is_well_formed (connection_found e o state now).0 ≡ true
unfolding restart_ice
connection-well e none state now eq pc h = h
connection-well e (some s) connected now eq pc h = ground (arith, eq, h, pc)
connection-well e (some s) disconnected now eq pc h = ground (arith, eq, h, pc)
connection-well e (some s) failed now eq pc h = ground (arith, eq, h, pc)
connection-well e (some s) other now eq pc h = ground (arith, eq, h, pc)

pub on_connection_state-well :
    (e : CallEngine) (state : ConnectionState) (now : ℕ)
    → is_well_formed e ≡ true
    → is_well_formed (on_connection_state e state now).0 ≡ true
unfolding on_connection_state
on_connection_state-well e state now h =
    either_out-holds is_well_formed e.pc _ _ (λ pc. connection-well e e.snap state now refl pc h) h

pub decline_found-well :
    (e : CallEngine) (o : Option CallSnapshot) (now : ℕ)
    → is_well_formed e ≡ true
    → is_well_formed (decline_found e o now).0 ≡ true
decline_found-well e none now h = h
decline_found-well e (some s) now h = ground (arith, h, finish-well e declined now h)

hang_up_in-well :
    (e : CallEngine) (s : CallSnapshot) (phase : CallPhase) (now : ℕ)
    → is_well_formed e ≡ true
    → is_well_formed (hang_up_in e s phase now).0 ≡ true
unfolding decline
hang_up_in-well e s ended now h = h
hang_up_in-well e s incoming now h = decline_found-well e e.snap now h
hang_up_in-well e s outgoing now h = finish-well e cancelled now h
hang_up_in-well e s connecting now h = finish-well e completed now h
hang_up_in-well e s active now h = finish-well e completed now h
hang_up_in-well e s reconnecting now h = finish-well e completed now h

pub hang_up-well :
    (e : CallEngine) (o : Option CallSnapshot) (now : ℕ)
    → is_well_formed e ≡ true
    → is_well_formed (hang_up_found e o now).0 ≡ true
hang_up-well e none now h = h
hang_up-well e (some s) now h = hang_up_in-well e s s.phase now h

pub accept_found-well :
    (e : CallEngine) (o : Option CallSnapshot) (has_camera : Bool)
    → e.snap ≡ o
    → is_well_formed e ≡ true
    → is_well_formed (accept_found e o has_camera).0 ≡ true
accept_found-well e none has_camera eq h = h
accept_found-well e (some s) has_camera eq h = ground (arith, eq, h)

pub dismiss_found-well :
    (e : CallEngine) (o : Option CallSnapshot)
    → e.snap ≡ o
    → is_well_formed e ≡ true
    → is_well_formed (dismiss_found e o) ≡ true
dismiss_found-well e none eq h = h
dismiss_found-well e (some s) eq h = ground (arith, eq, h)

-- A change of the snapshot that leaves the phase.
update_found-well :
    (f : CallSnapshot → CallSnapshot) (e : CallEngine) (o : Option CallSnapshot)
    → ((s : CallSnapshot) → (f s).phase ≡ s.phase)
    → e.snap ≡ o
    → is_well_formed e ≡ true
    → is_well_formed (update_found f e o) ≡ true
update_found-well f e none same eq h = h
update_found-well f e (some s) same eq h = rw (same s) (rw eq at h)

pub update-well :
    (f : CallSnapshot → CallSnapshot) (e : CallEngine)
    → ((s : CallSnapshot) → (f s).phase ≡ s.phase)
    → is_well_formed e ≡ true
    → is_well_formed (update f e) ≡ true
update-well f e same h = update_found-well f e e.snap same refl h

-- A new call.
pub begins-well :
    (e : CallEngine) (s : CallSnapshot) (polite : Bool)
    → is_answered s.phase ≡ false
    → is_ended s.phase ≡ false
    → is_well_formed (record (reset e).0 { polite = polite; snap = some s }) ≡ true
unfolding reset
begins-well e s polite waiting going = ground (arith, waiting, going)

accepted_by-well :
    (e : CallEngine) (s : CallSnapshot) (d : Direction) (own : Bool) (now : ℕ)
    → e.snap ≡ some s
    → is_well_formed e ≡ true
    → is_well_formed (accepted_by e s d own now).0 ≡ true
accepted_by-well e s received true now eq h = h
accepted_by-well e s received false now eq h = finish-well e answered_elsewhere now h
accepted_by-well e s placed own now eq h = ground (arith, eq, h)

pub accepted_found-well :
    (e : CallEngine) (o : Option CallSnapshot) (own : Bool) (now : ℕ)
    → e.snap ≡ o
    → is_well_formed e ≡ true
    → is_well_formed (accepted_found e o own now).0 ≡ true
accepted_found-well e none own now eq h = h
accepted_found-well e (some s) own now eq h = accepted_by-well e s s.direction own now eq h
