-- ===== src/Presence/Connections.antt =====
-- One user's connections in Redis: the transactions and scripts of PresenceService
-- (apps/api/src/realtime/presence.service.ts). A sorted set is a list of members with their
-- scores; each function is one transaction or script, which Redis runs as one. The key of the
-- connections expires by itself. What is announced to the contacts is a list, the latest first.
use Prim.Native.Nat.{max}
use videochat.Prelude.{
  ltb, leb, ◌==◌, if◌then◌else◌, select, count, ℕ, ◌+◌, ◌*◌, Bool, true, false, not, Option, none,
  some, List, [], ◌∷◌,
}

abbrev pub ttl_ms : ℕ
ttl_ms = 60000

pub record Connection : Type 0 where
  pub id : ℕ
  pub expires_at : ℕ

pub record Presence : Type 0 where
  pub conns : List Connection
  -- When the key of `conns` expires.
  pub key_until : ℕ
  -- The user's score in `presence:online`.
  pub online : Option ℕ
  pub announced : List Bool

abbrev pub absent : Presence
absent = record { conns = []; key_until = 0; online = none; announced = [] }

-- The connections that Redis still has.
abbrev pub stored : Presence → ℕ → List Connection
stored p now = if leb p.key_until now then [] else p.conns

abbrev pub is_live : ℕ → Connection → Bool
is_live now c = leb now c.expires_at

-- `ZCOUNT key now +inf`, `ZREMRANGEBYSCORE key -inf now`, `ZREM key id` and `ZADD key score id`.
abbrev pub zcount : ℕ → List Connection → ℕ
zcount now conns = count (is_live now) conns

abbrev pub purge : ℕ → List Connection → List Connection
purge now conns = select (λ c. ltb now c.expires_at) conns

abbrev pub zrem : ℕ → List Connection → List Connection
zrem id conns = select (λ c. not (c.id == id)) conns

abbrev pub zadd : ℕ → ℕ → List Connection → List Connection
zadd id score conns = record { id = id; expires_at = score } ∷ zrem id conns

-- `ZADD key GT score member`.
abbrev pub zadd_gt : Option ℕ → ℕ → Option ℕ
zadd_gt none score = some score
zadd_gt (some old) score = some (max old score)

abbrev pub touched : Presence → List Connection → ℕ → ℕ → List Bool → Presence
touched p conns id now announced = record {
  conns = zadd id (now + ttl_ms) conns;
  key_until = now + ttl_ms * 2;
  online = zadd_gt p.online (now + ttl_ms);
  announced = announced;
}

unfoldable pub connected : Presence → ℕ → ℕ → Presence
connected p id now =
    let left = purge now (stored p now) in
    touched p left id now (if zcount now left == 0 then true ∷ p.announced else p.announced)

-- `refresh`, for one of its entries.
unfoldable pub refresh : Presence → ℕ → ℕ → Presence
refresh p id now = touched p (stored p now) id now p.announced

-- Taking the user out of `presence:online`: whoever does it announces.
abbrev pub taken_offline : Presence → List Connection → Option ℕ → Presence
taken_offline p conns none = record p { conns = conns }
taken_offline p conns (some score) = record p {
  conns = conns;
  online = none;
  announced = false ∷ p.announced;
}

unfoldable pub disconnected : Presence → ℕ → ℕ → Presence
disconnected p id now =
    let left = zrem id (stored p now) in
    if ltb 0 (zcount now left) then record p { conns = left } else taken_offline p left p.online

-- The script of the sweep, for a user whose score had lapsed when the sweep read it.
unfoldable pub sweep : Presence → ℕ → Presence
sweep p now =
    if ltb 0 (zcount now (stored p now))
    then record p { conns = stored p now }
    else taken_offline p (purge now (stored p now)) p.online

-- The last look of `announceOffline`.
unfoldable pub recheck : Presence → ℕ → Presence
recheck p now =
    if ltb 0 (zcount now (stored p now)) then record p { announced = true ∷ p.announced } else p

pub data Operation : Type 0 where
  connects refreshes disconnects : (id : ℕ) → Operation
  sweeps rechecks : Operation

unfoldable pub perform : Presence → ℕ → Operation → Presence
perform p now (connects id) = connected p id now
perform p now (refreshes id) = refresh p id now
perform p now (disconnects id) = disconnected p id now
perform p now sweeps = sweep p now
perform p now rechecks = recheck p now

unfoldable pub perform_all : Presence → List (ℕ × Operation) → Presence
perform_all p [] = p
perform_all p ((now, operation) ∷ rest) = perform_all (perform p now operation) rest

-- `getForViewer`: online or not.
unfoldable pub is_online : Presence → ℕ → Bool
is_online p now = ltb 0 (zcount now (stored p now))
