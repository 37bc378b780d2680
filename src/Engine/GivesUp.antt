-- ===== src/Engine/GivesUp.antt =====
-- How a reconnection of CallEngine (apps/web/src/features/calls/CallEngine.ts) ends that finds no
-- connection.
use videochat.Engine.State.{
  CallPhase, outgoing, incoming, connecting, active, reconnecting, ended, connection_lost,
  CallSnapshot, CallEngine, idle, is_ended, is_reconnecting, is_busy,
}
use videochat.Engine.Peer.{restart_ice}
use videochat.Engine.Operations.{
  reconnect_timeout_ms, give_up, ConnectionState, connected, disconnected, failed, other,
  on_connection_state,
}
use videochat.Engine.Running.{
  Event, connection_changes, handle, is_due, fire_ice_restart, fire_reconnect, fire_due, step, run,
}
use videochat.Engine.Phases.{phase_of, is_consistent, is_well_formed, either_out-holds}
use videochat.Engine.WellFormed.{stays_well_formed}
use videochat.Engine.Waiting.{
  is_reconnecting_in, waits_until, waits_or_ended, is_connected, finish-ended,
}
use videochat.Engine.StillWaiting.{handle-still}
use videochat.Prelude.{
  ltb, leb, is_null, Bool-cases, Option-cases, any, All, ℕ, ◌+◌, ◌≡◌, refl, inl, inr, Bool, true,
  false, not, ◌||◌, Option, none, some, List, [], ◌∷◌, arith,
}

module _ (time : ℕ) where
  -- The timers that are due before an event.
  fire_early :
      (e : CallEngine) (now : ℕ)
      → ltb now time ≡ true
      → waits_until time e ≡ true
      → waits_until time (fire_due e now).0 ≡ true
  unfolding fire_due fire_ice_restart fire_reconnect restart_ice
  fire_early e now early h = elim (Option-cases e.reconnect_timer) [
    | inl unset ↦ absurd (ground (arith, unset, h))
    | inr (due, set) ↦ ground (arith, set, h, early)
  ]

  give_up_due :
      (e : CallEngine) (now : ℕ)
      → leb time now ≡ true
      → waits_until time e ≡ true
      → is_busy (fire_reconnect e now).0 ≡ false
  unfolding fire_reconnect give_up
  give_up_due e now late h = elim (Option-cases e.reconnect_timer) [
    | inl unset ↦ absurd (ground (arith, unset, h))
    | inr (due, set) ↦ elim (Option-cases e.snap) [
      | inl eq ↦ absurd (ground (arith, eq, h))
      | inr (s, eq) ↦ ground (arith, set, eq, h, late, finish-ended e connection_lost now)
    ]
  ]

  fire_late :
      (e : CallEngine) (now : ℕ)
      → leb time now ≡ true
      → waits_until time e ≡ true
      → is_busy (fire_due e now).0 ≡ false
  unfolding fire_due fire_ice_restart restart_ice
  fire_late e now late h =
      give_up_due (fire_ice_restart e now).0 now late
        (either_out-holds (waits_until time) (is_due e.ice_restart_timer now) _ _ (λ b. h) h)

-- Whether the call is over at some moment of a run: before an event, once the timers that are due
-- before it have fired, or at the end.
abbrev pub ends_within : CallEngine → List (ℕ × Event) → Bool
ends_within e [] = not (is_busy e)
ends_within e ((now, event) ∷ events) =
    let rest = ends_within (step e now event).0 events in
    not (is_busy e) || not (is_busy (fire_due e now).0) || rest

waiting_ends :
    (time : ℕ) (e : CallEngine) (events : List (ℕ × Event))
    → waits_or_ended time e ≡ true
    → All (λ x. is_connected x.1 ≡ false) events
    → any (λ x. leb time x.0) events ≡ true
    → ends_within e events ≡ true
unfolding step
waiting_ends time e [] h quiet late = cc
waiting_ends time e ((now, event) ∷ events) h quiet late = elim (Bool-cases (is_busy e)) [
  | inr over ↦ rw over refl
  | inl busy_now ↦
      let waits : waits_until time e ≡ true = ground (arith, rw busy_now at h) in
      elim (Bool-cases (leb time now)) [
        | inl due ↦ rw busy_now (rw (fire_late time e now due waits) refl)
        | inr early ↦
            let fired : CallEngine = (fire_due e now).0 in
            let next : waits_or_ended time (handle fired now event).0 ≡ true =
              handle-still time fired now event quiet.0
                (fire_early time e now (ground (arith, early)) waits) in
            ground (
              arith,
              waiting_ends time (handle fired now event).0 events next quiet.1
                  (ground (arith, early, late)),
            )
      ]
]

-- The states of a connection that is lost.
abbrev pub is_lost : ConnectionState → Bool
is_lost disconnected = true
is_lost failed = true
is_lost _ = false

null-none : (o : Option ℕ) → is_null o ≡ true → o ≡ none
null-none none h = refl
null-none (some time) h = cc

no_timers :
    (phase : Option CallPhase) (pc calm still_ polls : Bool)
    → is_reconnecting_in phase ≡ false
    → is_consistent phase pc calm still_ polls ≡ true
    → (calm ≡ true) × (still_ ≡ true)
no_timers none pc calm still_ polls r h = (ground (arith, h), ground (arith, h))
no_timers (some ended) pc calm still_ polls r h = (ground (arith, h), ground (arith, h))
no_timers (some reconnecting) pc calm still_ polls r h = cc
no_timers (some active) pc calm still_ polls r h = (ground (arith, h), ground (arith, h))
no_timers (some outgoing) pc calm still_ polls r h = (ground (arith, h), ground (arith, h))
no_timers (some incoming) pc calm still_ polls r h = (ground (arith, h), ground (arith, h))
no_timers (some connecting) pc calm still_ polls r h = (ground (arith, h), ground (arith, h))

calm_fire :
    (e : CallEngine) (now : ℕ)
    → is_reconnecting_in (phase_of e.snap) ≡ false
    → is_well_formed e ≡ true
    → (fire_due e now).0 ≡ e
unfolding fire_due fire_ice_restart fire_reconnect
calm_fire e now calm well =
    let (r, i) = no_timers (phase_of e.snap) e.pc _ _ e.stats_timer calm well in
    rw (null-none e.ice_restart_timer i) (rw (null-none e.reconnect_timer r) refl)

lost_in :
    (e : CallEngine) (s : CallSnapshot) (state : ConnectionState) (now : ℕ)
    → is_lost state ≡ true
    → e.snap ≡ some s
    → is_ended s.phase ≡ false
    → e.pc ≡ true
    → is_reconnecting s.phase ≡ false
    → e.reconnect_timer ≡ none
    → waits_until (now + reconnect_timeout_ms) (on_connection_state e state now).0 ≡ true
unfolding on_connection_state restart_ice
lost_in e s connected now lost eq going pc calm unset = cc
lost_in e s disconnected now lost eq going pc calm unset =
    ground (arith, eq, going, pc, calm, unset)
lost_in e s failed now lost eq going pc calm unset = ground (arith, eq, going, pc, calm, unset)
lost_in e s other now lost eq going pc calm unset = cc

lost_waits :
    (e : CallEngine) (state : ConnectionState) (now : ℕ)
    → is_lost state ≡ true
    → is_busy e ≡ true
    → e.pc ≡ true
    → is_reconnecting_in (phase_of e.snap) ≡ false
    → is_well_formed e ≡ true
    → waits_until (now + reconnect_timeout_ms) (handle e now (connection_changes state)).0 ≡ true
unfolding handle on_connection_state restart_ice
lost_waits e state now lost busy_now pc calm well =
    let (r, i) = no_timers (phase_of e.snap) e.pc _ _ e.stats_timer calm well in
    let unset : e.reconnect_timer ≡ none = null-none e.reconnect_timer r in
    elim (Option-cases e.snap) [
      | inl eq ↦ absurd (ground (arith, rw eq at busy_now))
      | inr (s, eq) ↦
          lost_in e s state now lost eq (ground (arith, eq, busy_now)) pc (ground (arith, eq, calm))
            unset
    ]

-- When a call that is not reconnecting loses its connection at a time, after any events before,
-- then, whatever happens next, as long as no connection is reported and some event comes 15
-- seconds later or after, the call is over at some moment of the run.
pub gives_up :
    (before after_ : List (ℕ × Event)) (state : ConnectionState) (now : ℕ)
    → is_lost state ≡ true
    → is_busy (run idle before).0 ≡ true
    → (run idle before).0.pc ≡ true
    → is_reconnecting_in (phase_of (run idle before).0.snap) ≡ false
    → All (λ x. is_connected x.1 ≡ false) after_
    → any (λ x. leb (now + reconnect_timeout_ms) x.0) after_ ≡ true
    → ends_within (step (run idle before).0 now (connection_changes state)).0 after_ ≡ true
unfolding step
gives_up before after_ state now lost busy_now pc calm quiet late =
    let e : CallEngine = (run idle before).0 in
    let well : is_well_formed e ≡ true = stays_well_formed before in
    rw (calm_fire e now calm well) (
      waiting_ends (now + reconnect_timeout_ms) (handle e now (connection_changes state)).0 after_
        (ground (arith, lost_waits e state now lost busy_now pc calm well)) quiet late)
