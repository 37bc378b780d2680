-- ===== src/Sessions/Requests.antt =====
-- The session handling of AuthService (apps/api/src/auth/auth.service.ts): `refresh`, `logout`,
-- `issueSession` and the two password changes, as the statements that they run one after the
-- other. Requests run at the same time, so what a request still has to do after a statement is
-- kept in the state. A token's id, hash, family and expiry never change, so reading them together
-- with the statement that follows is the same as reading them before it.
use videochat.Prelude.{
  ℕ, Bool, ◌&&◌, Option, none, some, List, [], ◌∷◌, any, leb, ◌==◌, if◌then◌else◌,
}
use videochat.Sessions.Table.{
  RefreshToken, Sessions, CreateRefreshTokenInput, create_refresh_token, find_refresh_token_by_hash,
  revoke_refresh_token, revoke_family, revoke_all_for_user, revoke_all_for_user_except,
}

-- A request that rotated a token and has yet to issue the next one.
pub record Debt : Type 0 where
  pub user_id : ℕ
  pub family_id : ℕ

pub record World : Type 0 where
  pub sessions : Sessions
  pub owed : List Debt
  -- Families whose reuse was detected by a request that has yet to revoke them.
  pub doomed : List ℕ

-- `remove_debt` takes one entry away.
abbrev pub is_debt : ℕ → ℕ → Debt → Bool
is_debt user family d = d.user_id == user && d.family_id == family

abbrev pub remove_debt : ℕ → ℕ → List Debt → List Debt
remove_debt user family [] = []
remove_debt user family (d ∷ ds) =
    let rest = remove_debt user family ds in if is_debt user family d then ds else d ∷ rest

-- `refresh` up to its second statement, for a token that was found.
abbrev pub rotated : World → RefreshToken → Bool → List RefreshToken → World
rotated w row won tokens =
    if won
    then record w {
      sessions = record w.sessions { tokens = tokens };
      owed = record { user_id = row.user_id; family_id = row.family_id } ∷ w.owed;
    }
    else record w { doomed = row.family_id ∷ w.doomed }

abbrev pub refresh_found : World → ℕ → Option RefreshToken → World
refresh_found w now none = w
refresh_found w now (some row) =
    if leb row.expires_at now
    then w
    else rotated w row (revoke_refresh_token w.sessions.tokens row.id now).1
        (revoke_refresh_token w.sessions.tokens row.id now).0

unfoldable pub refresh : World → ℕ → ℕ → World
refresh w hash now = refresh_found w now (find_refresh_token_by_hash w.sessions.tokens hash)

-- `issueSession` for a session that exists; `allowed` says whether the user is found and neither
-- suspended nor banned. A refusal or a taken key ends the request.
abbrev pub store_token : World → Option (List RefreshToken) → World
store_token w none = w
store_token w (some tokens) = record w { sessions = record w.sessions { tokens = tokens } }

abbrev pub issue : World → Bool → ℕ → CreateRefreshTokenInput → World
issue w allowed id input =
    if allowed then store_token w (create_refresh_token w.sessions.tokens id input) else w

unfoldable pub issue_rotated : World → Bool → ℕ → CreateRefreshTokenInput → World
issue_rotated w allowed id input =
    if any (is_debt input.user_id input.family_id) w.owed
    then issue (record w { owed = remove_debt input.user_id input.family_id w.owed }) allowed id
        input
    else w

-- A family that was handed out before: `randomUUID` returns no such one.
abbrev pub in_family : ℕ → RefreshToken → Bool
in_family family t = t.family_id == family

abbrev pub is_known : World → ℕ → Bool
is_known w family = any (in_family family) w.sessions.tokens

-- Signing in issues a session of a new family.
unfoldable pub sign_in : World → Bool → ℕ → CreateRefreshTokenInput → World
sign_in w allowed id input = if is_known w input.family_id then w else issue w allowed id input

abbrev pub revoke_found : World → ℕ → Option RefreshToken → World
revoke_found w now none = w
revoke_found w now (some row) = record w { sessions = revoke_family w.sessions row.family_id now }

unfoldable pub logout : World → ℕ → ℕ → World
logout w hash now = revoke_found w now (find_refresh_token_by_hash w.sessions.tokens hash)

abbrev pub remove_doomed : ℕ → List ℕ → List ℕ
remove_doomed family [] = []
remove_doomed family (f ∷ fs) =
    let rest = remove_doomed family fs in if f == family then fs else f ∷ rest

-- The second statement of a refresh that lost.
unfoldable pub end_doomed : World → ℕ → ℕ → World
end_doomed w family now =
    if any (λ f. f == family) w.doomed
    then record w {
      sessions = revoke_family w.sessions family now;
      doomed = remove_doomed family w.doomed;
    }
    else w

pub data Statement : Type 0 where
  refreshes : (hash : ℕ) → (now : ℕ) → Statement
  issues : (allowed : Bool) → (id : ℕ) → (input : CreateRefreshTokenInput) → Statement
  ends_doomed : (family : ℕ) → (now : ℕ) → Statement
  signs_in : (allowed : Bool) → (id : ℕ) → (input : CreateRefreshTokenInput) → Statement
  logs_out : (hash : ℕ) → (now : ℕ) → Statement
  resets_password : (user : ℕ) → (now : ℕ) → Statement
  changes_password : (user : ℕ) → (keep : Option ℕ) → (now : ℕ) → Statement

unfoldable pub exec : World → Statement → World
exec w (refreshes hash now) = refresh w hash now
exec w (issues allowed id input) = issue_rotated w allowed id input
exec w (ends_doomed family now) = end_doomed w family now
exec w (signs_in allowed id input) = sign_in w allowed id input
exec w (logs_out hash now) = logout w hash now
exec w (resets_password user now) = record w { sessions = revoke_all_for_user w.sessions user now }
exec w (changes_password user keep now) = record w {
  sessions = revoke_all_for_user_except w.sessions user keep now;
}

unfoldable pub exec_all : World → List Statement → World
exec_all w [] = w
exec_all w (s ∷ ss) = exec_all (exec w s) ss
