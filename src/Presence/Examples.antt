-- ===== src/Presence/Examples.antt =====
-- Presence at concrete inputs: one connection that is late with a heartbeat.
use videochat.Presence.Connections.{
  absent, connected, refresh, sweep, recheck, Operation, connects, refreshes, sweeps, rechecks,
  perform, perform_all, is_online,
}
use videochat.Presence.Live.{hear_all, is_recent, online_when_heard}
use videochat.Prelude.{ltb, count, ℕ, ◌≡◌, refl, true, false, List, [], ◌∷◌, arith}

-- The sweep finds the user gone; then the connection is refreshed after all.
abbrev late : List (ℕ × Operation)
late = (1000, connects 5) ∷ (62000, sweeps) ∷ (62001, rechecks) ∷ (63000, refreshes 5) ∷ []

-- The user is online, and the last that the contacts were told is that the user is not.
online_unannounced :
    (is_online (perform_all absent late) 64000 ≡ true)
    × ((perform_all absent late).announced ≡ false ∷ true ∷ [])
unfolding is_online perform_all perform connected sweep recheck refresh
online_unannounced = (refl, refl)

online_when_heard_example :
    is_online (perform_all absent late) 64000 ≡ ltb 0 (count (is_recent 64000) (hear_all [] late))
online_when_heard_example =
    online_when_heard late 64000 (omega arith, (omega arith, (omega arith, (omega arith, tt))))
      (omega arith)
