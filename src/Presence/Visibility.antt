-- ===== src/Presence/Visibility.antt =====
-- Who may see whose presence: `canSeePresence` of apps/api/src/realtime/presence.service.ts.
use videochat.Prelude.{◌≡◌, Bool, true, false, ◌&&◌, arith}

pub data LastSeenVisibility : Type 0 where
  everyone contacts nobody : LastSeenVisibility

abbrev pub shares : LastSeenVisibility → Bool → Bool
shares everyone shares_direct = true
shares contacts shares_direct = shares_direct
shares nobody shares_direct = false

unfoldable pub can_see_presence : LastSeenVisibility → LastSeenVisibility → Bool → Bool
can_see_presence subject viewer shares_direct =
    shares subject shares_direct && shares viewer shares_direct

-- Two people see each other's presence or neither does.
can_see_presence-reciprocal :
    (a b : LastSeenVisibility) (shares_direct : Bool)
    → can_see_presence a b shares_direct ≡ can_see_presence b a shares_direct
unfolding can_see_presence
can_see_presence-reciprocal a b shares_direct = ground arith
