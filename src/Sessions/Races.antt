-- ===== src/Sessions/Races.antt =====
-- What may run between the two statements of a rotation (`refresh` of
-- apps/api/src/auth/auth.service.ts).
use videochat.Sessions.Table.{RefreshToken, CreateRefreshTokenInput}
use videochat.Sessions.Requests.{World, Statement, issues}
use videochat.Prelude.{◌==◌, any, ℕ, Bool, false, not, ◌&&◌, ◌||◌}

-- The second statement of a rotation of this user's session. A session has at most one rotation under
-- way, so among other statements it is the same request's.
abbrev pub is_issue_of : ℕ → ℕ → Statement → Bool
is_issue_of user family (issues allowed id input) =
    input.user_id == user && input.family_id == family
is_issue_of user family _ = false

-- What `issueSession` is given after a rotation: the user and the session of the old token.
abbrev pub next_token : RefreshToken → ℕ → ℕ → CreateRefreshTokenInput
next_token row token_hash expires_at = record {
  user_id = row.user_id;
  family_id = row.family_id;
  token_hash = token_hash;
  expires_at = expires_at;
}

-- The token's id and hash are not in the table: both are random.
abbrev pub is_fresh : World → ℕ → CreateRefreshTokenInput → Bool
is_fresh w id input =
    not (any (λ t. t.id == id || t.token_hash == input.token_hash) w.sessions.tokens)
