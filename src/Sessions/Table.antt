-- ===== src/Sessions/Table.antt =====
-- Login sessions: apps/api/src/db/refresh-tokens.ts, with the columns of apps/api/src/db/schema.ts.
-- A token's hash and a family (the session) are opaque; the devices are those with push tokens.
use videochat.Prelude.{
  ℕ, Bool, true, false, not, ◌&&◌, ◌||◌, Option, none, some, List, ◌∷◌, any, find, select, update,
  ltb, ◌==◌, null_eq, is_null, if◌then◌else◌,
}

pub record RefreshToken : Type 0 where
  pub id : ℕ
  pub user_id : ℕ
  pub family_id : ℕ
  pub token_hash : ℕ
  pub expires_at : ℕ
  pub revoked_at : Option ℕ

pub record Device : Type 0 where
  pub user_id : ℕ
  pub session_family_id : Option ℕ

pub record Sessions : Type 0 where
  pub tokens : List RefreshToken
  pub devices : List Device

pub record CreateRefreshTokenInput : Type 0 where
  pub user_id : ℕ
  pub family_id : ℕ
  pub token_hash : ℕ
  pub expires_at : ℕ

abbrev pub new_token : ℕ → CreateRefreshTokenInput → RefreshToken
new_token id input = record {
  id = id;
  user_id = input.user_id;
  family_id = input.family_id;
  token_hash = input.token_hash;
  expires_at = input.expires_at;
  revoked_at = none;
}

-- The primary key and the unique index on the hash; a taken key throws.
unfoldable pub create_refresh_token :
    List RefreshToken → ℕ → CreateRefreshTokenInput → Option (List RefreshToken)
create_refresh_token tokens id input =
    if any (λ t. t.id == id || t.token_hash == input.token_hash) tokens
    then none
    else some (new_token id input ∷ tokens)

unfoldable pub find_refresh_token_by_hash : List RefreshToken → ℕ → Option RefreshToken
find_refresh_token_by_hash tokens hash = find (λ t. t.token_hash == hash) tokens

abbrev pub set_revoked : ℕ → RefreshToken → RefreshToken
set_revoked now t = record t { revoked_at = some now }

abbrev pub is_unrevoked : ℕ → RefreshToken → Bool
is_unrevoked id t = t.id == id && is_null t.revoked_at

-- The table, and whether this call revoked the token.
unfoldable pub revoke_refresh_token : List RefreshToken → ℕ → ℕ → List RefreshToken × Bool
revoke_refresh_token tokens id now =
    (update (is_unrevoked id) (set_revoked now) tokens, any (is_unrevoked id) tokens)

abbrev pub is_live : ℕ → RefreshToken → Bool
is_live family t = t.family_id == family && is_null t.revoked_at

unfoldable pub is_family_live : List RefreshToken → ℕ → ℕ → Bool
is_family_live tokens family now = any (λ t. is_live family t && ltb now t.expires_at) tokens

unfoldable pub revoke_family : Sessions → ℕ → ℕ → Sessions
revoke_family s family now = record {
  tokens = update (is_live family) (set_revoked now) s.tokens;
  devices = select (λ d. not (null_eq d.session_family_id family)) s.devices;
}

unfoldable pub revoke_all_for_user : Sessions → ℕ → ℕ → Sessions
revoke_all_for_user s user now = record {
  tokens = update (λ t. t.user_id == user && is_null t.revoked_at) (set_revoked now) s.tokens;
  devices = select (λ d. not (d.user_id == user)) s.devices;
}

-- `...(keepFamilyId ? [ne(…, keepFamilyId)] : [])`.
abbrev pub is_other : Option ℕ → ℕ → Bool
is_other none family = true
is_other (some keep) family = not (family == keep)

abbrev pub has_other_session : Option ℕ → Option ℕ → Bool
has_other_session keep none = false
has_other_session keep (some family) = is_other keep family

unfoldable pub revoke_all_for_user_except : Sessions → ℕ → Option ℕ → ℕ → Sessions
revoke_all_for_user_except s user keep now = record {
  tokens =
      update (λ t. t.user_id == user && is_null t.revoked_at && is_other keep t.family_id)
        (set_revoked now) s.tokens;
  devices =
      select (λ d. not (d.user_id == user && has_other_session keep d.session_family_id)) s.devices;
}
