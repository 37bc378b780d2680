-- ===== src/Sessions/Changes.antt =====
-- What the statements of AuthService (apps/api/src/auth/auth.service.ts) may do to the refresh tokens.
use videochat.Sessions.Table.{
  RefreshToken, CreateRefreshTokenInput, new_token, create_refresh_token, set_revoked, is_unrevoked,
  revoke_refresh_token, is_live, revoke_family, revoke_all_for_user, revoke_all_for_user_except,
}
use videochat.Sessions.Requests.{
  World, is_debt, remove_debt, refresh_found, refresh, store_token, issue, issue_rotated, in_family,
  is_known, sign_in, revoke_found, logout, end_doomed, Statement, refreshes, issues, ends_doomed,
  signs_in, logs_out, resets_password, changes_password, exec,
}
use videochat.Sessions.Rotation.{has_id, HasUniqueIds}
use videochat.Prelude.{
  leb, ◌==◌, Bool-cases, any, update, count, count-update, any-update, ℕ, ◌≡◌, refl, inl, inr, Bool,
  true, false, ◌||◌, Option, none, some, List, [], ◌∷◌, arith,
}

-- What a statement may make of the table of tokens.
pub data Change (tokens : List RefreshToken) : List RefreshToken → Type 0 where
  kept : Change tokens tokens
  revoked : (p : RefreshToken → Bool) (now : ℕ) → Change tokens (update p (set_revoked now) tokens)
  added :
      (id : ℕ) (input : CreateRefreshTokenInput)
      → any (λ t. t.id == id || t.token_hash == input.token_hash) tokens ≡ false
      → Change tokens (new_token id input ∷ tokens)

store_token-Change :
    (w : World) (id : ℕ) (input : CreateRefreshTokenInput)
    → Change w.sessions.tokens
        (store_token w (create_refresh_token w.sessions.tokens id input)).sessions.tokens
unfolding create_refresh_token
store_token-Change w id input =
    elim (Bool-cases
      (any (λ t. t.id == id || t.token_hash == input.token_hash) w.sessions.tokens)) [
        | inl e ↦ rw e kept
        | inr e ↦ rw e (added id input e)
      ]

issue-Change :
    (w : World) (allowed : Bool) (id : ℕ) (input : CreateRefreshTokenInput)
    → Change w.sessions.tokens (issue w allowed id input).sessions.tokens
issue-Change w true id input = store_token-Change w id input
issue-Change w false id input = kept

refresh_found-Change :
    (w : World) (now : ℕ) (o : Option RefreshToken)
    → Change w.sessions.tokens (refresh_found w now o).sessions.tokens
unfolding revoke_refresh_token
refresh_found-Change w now none = kept
refresh_found-Change w now (some row) = elim (Bool-cases (leb row.expires_at now)) [
  | inl late ↦ rw late kept
  | inr in_time ↦ rw in_time (elim (Bool-cases (any (is_unrevoked row.id) w.sessions.tokens)) [
    | inl won ↦ rw won (revoked (is_unrevoked row.id) now)
    | inr lost ↦ rw lost kept
  ])
]

revoke_found-Change :
    (w : World) (now : ℕ) (o : Option RefreshToken)
    → Change w.sessions.tokens (revoke_found w now o).sessions.tokens
unfolding revoke_family
revoke_found-Change w now none = kept
revoke_found-Change w now (some row) = revoked (is_live row.family_id) now

pub exec-Change : (w : World) (s : Statement) → Change w.sessions.tokens (exec w s).sessions.tokens
unfolding exec refresh logout revoke_family revoke_all_for_user revoke_all_for_user_except
    issue_rotated sign_in end_doomed
exec-Change w (refreshes hash now) = refresh_found-Change w now _
exec-Change w (issues allowed id input) =
    elim (Bool-cases (any (is_debt input.user_id input.family_id) w.owed)) [
      | inl e ↦ rw e (
          issue-Change (record w { owed = remove_debt input.user_id input.family_id w.owed })
            allowed id input)
      | inr e ↦ rw e kept
    ]
exec-Change w (ends_doomed f now) = elim (Bool-cases (any (λ g. g == f) w.doomed)) [
  | inl e ↦ rw e (revoked (is_live f) now)
  | inr e ↦ rw e kept
]
exec-Change w (signs_in allowed id input) = elim (Bool-cases (is_known w input.family_id)) [
  | inl e ↦ rw e kept
  | inr e ↦ rw e (issue-Change w allowed id input)
]
exec-Change w (logs_out hash now) = revoke_found-Change w now _
exec-Change w (resets_password user now) = revoked _ now
exec-Change w (changes_password user keep now) = revoked _ now

unused_id :
    (id hash : ℕ) (tokens : List RefreshToken)
    → any (λ t. t.id == id || t.token_hash == hash) tokens ≡ false
    → count (has_id id) tokens ≡ 0
unused_id id hash [] h = refl
unused_id id hash (t ∷ ts) h = ground (arith, unused_id id hash ts)

pub Change-HasUniqueIds :
    (ts us : List RefreshToken) → Change ts us → HasUniqueIds ts → HasUniqueIds us
Change-HasUniqueIds ts us kept u k = u k
Change-HasUniqueIds ts us (revoked p now) u k =
    omega (arith, u k, count-update (has_id k) p (set_revoked now) ts (λ t e. refl))
Change-HasUniqueIds ts us (added id input e) u k =
    ground (arith, u k, unused_id id input.token_hash ts e)

pub Change-in_family :
    (ts us : List RefreshToken) (f : ℕ)
    → Change ts us
    → any (in_family f) ts ≡ true
    → any (in_family f) us ≡ true
Change-in_family ts us f kept h = h
Change-in_family ts us f (revoked p now) h =
    rw (any-update (in_family f) p (set_revoked now) ts (λ t. refl)) h
Change-in_family ts us f (added id input e) h = ground (arith, h)
