-- ===== src/Sessions/Rotation.antt =====
-- The usable refresh tokens of a session, counted through every statement of AuthService
-- (apps/api/src/auth/auth.service.ts).
use videochat.Prelude.{
  ℕ, ◌+◌, ◌≤◌, ◌≡◌, refl, Bool, true, false, not, ◌&&◌, Option, none, some, List, [], ◌∷◌, any,
  find, count, update, ◌==◌, is_null, arith, Bool-cases, inl, inr,
}
use videochat.Sessions.Table.{
  RefreshToken, CreateRefreshTokenInput, is_live, set_revoked, is_unrevoked, create_refresh_token,
  revoke_family, revoke_refresh_token, find_refresh_token_by_hash, revoke_all_for_user,
  revoke_all_for_user_except, is_other,
}
use videochat.Sessions.Requests.{
  World, Debt, Statement, refreshes, issues, ends_doomed, signs_in, logs_out, resets_password,
  changes_password, exec, is_debt, remove_debt, is_known, store_token, issue, issue_rotated,
  sign_in, refresh_found, revoke_found, refresh, logout, end_doomed,
}

abbrev pub has_id : ℕ → RefreshToken → Bool
has_id id t = t.id == id

abbrev pub of_family : ℕ → Debt → Bool
of_family family d = d.family_id == family

-- At most one row has any given id: the primary key.
abbrev pub HasUniqueIds : List RefreshToken → Type 0
HasUniqueIds tokens = (id : ℕ) → count (has_id id) tokens ≤ 1

-- The usable tokens of a session, with those that requests have yet to issue.
abbrev pub outstanding : ℕ → World → ℕ
outstanding family w = count (is_live family) w.sessions.tokens + count (of_family family) w.owed

any-false :
    (p : RefreshToken → Bool) (tokens : List RefreshToken)
    → count p tokens ≡ 0
    → any p tokens ≡ false
any-false p [] h = refl
any-false p (t ∷ ts) h = ground (arith, any-false p ts)

unrevoked_none :
    (id : ℕ) (tokens : List RefreshToken)
    → count (has_id id) tokens ≡ 0
    → any (is_unrevoked id) tokens ≡ false
unrevoked_none id [] h = refl
unrevoked_none id (t ∷ ts) h = ground (arith, unrevoked_none id ts)

live_untouched :
    (id now family : ℕ) (tokens : List RefreshToken)
    → any (is_unrevoked id) tokens ≡ false
    → update (is_unrevoked id) (set_revoked now) tokens ≡ tokens
live_untouched id now family [] h = refl
live_untouched id now family (t ∷ ts) h = ground (arith, live_untouched id now family ts)

found_counts :
    (hash : ℕ) (tokens : List RefreshToken) (row : RefreshToken)
    → find (λ t. t.token_hash == hash) tokens ≡ some row
    → 1 ≤ count (has_id row.id) tokens
found_counts hash [] row e = cc
found_counts hash (t ∷ ts) row e = ground (arith, found_counts hash ts row)

abbrev pub one_if : Bool → ℕ
one_if true = 1
one_if false = 0

-- Revoking the row that was found takes exactly one usable token from its family.
revoked_count :
    (hash now family : ℕ) (tokens : List RefreshToken) (row : RefreshToken)
    → find (λ t. t.token_hash == hash) tokens ≡ some row
    → count (has_id row.id) tokens ≤ 1
    → any (is_unrevoked row.id) tokens ≡ true
    → count (is_live family) (update (is_unrevoked row.id) (set_revoked now) tokens)
        + one_if (row.family_id == family)
      ≡ count (is_live family) tokens
revoked_count hash now family [] row e u won = cc
revoked_count hash now family (t ∷ ts) row e u won = elim (Bool-cases (t.token_hash == hash)) [
  | inl h ↦ ground (arith, rw h at e, live_untouched row.id now family ts, unrevoked_none row.id ts)
  | inr h ↦ ground (
    arith,
    rw h at e,
    found_counts hash ts row (rw h at e),
    revoked_count hash now family ts row (rw h at e),
  )
]

fewer_live :
    (p : RefreshToken → Bool) (now family : ℕ) (tokens : List RefreshToken)
    → count (is_live family) (update p (set_revoked now) tokens) ≤ count (is_live family) tokens
fewer_live p now family [] = omega arith
fewer_live p now family (t ∷ ts) = ground (arith, fewer_live p now family ts)

debt_removed :
    (user family f : ℕ) (ds : List Debt)
    → any (is_debt user family) ds ≡ true
    → count (of_family f) (remove_debt user family ds) + one_if (family == f)
      ≡ count (of_family f) ds
debt_removed user family f [] h = cc
debt_removed user family f (d ∷ ds) h = ground (arith, debt_removed user family f ds)

-- A sign-in opens a session that was not there.
abbrev pub opened : World → Statement → ℕ → ℕ
opened w (signs_in allowed id input) family =
    one_if (not (is_known w input.family_id) && input.family_id == family)
opened w _ family = 0

issued_outstanding :
    (w : World) (id family : ℕ) (input : CreateRefreshTokenInput) (o : Option (List RefreshToken))
    → create_refresh_token w.sessions.tokens id input ≡ o
    → outstanding family (store_token w o)
      ≤ outstanding family w + one_if (input.family_id == family)
unfolding create_refresh_token
issued_outstanding w id family input none e = omega arith
issued_outstanding w id family input (some tokens) e = ground (arith, e)

outstanding-issue :
    (w : World) (allowed : Bool) (id family : ℕ) (input : CreateRefreshTokenInput)
    → outstanding family (issue w allowed id input)
      ≤ outstanding family w + one_if (input.family_id == family)
outstanding-issue w true id family input = issued_outstanding w id family input _ refl
outstanding-issue w false id family input = omega arith

outstanding-issue_rotated :
    (w : World) (allowed : Bool) (id family : ℕ) (input : CreateRefreshTokenInput)
    → outstanding family (issue_rotated w allowed id input) ≤ outstanding family w
unfolding issue_rotated
outstanding-issue_rotated w allowed id family input =
    elim (Bool-cases (any (is_debt input.user_id input.family_id) w.owed)) [
      | inl e ↦ rw e (
          omega (
            arith,
            debt_removed input.user_id input.family_id family w.owed e,
            outstanding-issue (record w { owed = remove_debt input.user_id input.family_id w.owed })
                allowed id family input,
          ))
      | inr e ↦ rw e (omega arith)
    ]

outstanding-sign_in :
    (w : World) (allowed : Bool) (id family : ℕ) (input : CreateRefreshTokenInput)
    → outstanding family (sign_in w allowed id input)
      ≤ outstanding family w + opened w (signs_in allowed id input) family
unfolding sign_in
outstanding-sign_in w allowed id family input = elim (Bool-cases (is_known w input.family_id)) [
  | inl e ↦ rw e (omega arith)
  | inr e ↦ rw e (outstanding-issue w allowed id family input)
]

outstanding-refresh_found :
    (w : World) (hash now family : ℕ) (o : Option RefreshToken)
    → HasUniqueIds w.sessions.tokens
    → find (λ t. t.token_hash == hash) w.sessions.tokens ≡ o
    → outstanding family (refresh_found w now o) ≤ outstanding family w
unfolding revoke_refresh_token
outstanding-refresh_found w hash now family none u e = omega arith
outstanding-refresh_found w hash now family (some row) u e =
    elim (Bool-cases (any (is_unrevoked row.id) w.sessions.tokens)) [
      | inl won ↦
          rw won
            (ground (arith, revoked_count hash now family w.sessions.tokens row e (u row.id) won))
      | inr lost ↦ rw lost (ground arith)
    ]

outstanding-revoke_found :
    (w : World) (now family : ℕ) (o : Option RefreshToken)
    → outstanding family (revoke_found w now o) ≤ outstanding family w
unfolding revoke_family
outstanding-revoke_found w now family none = omega arith
outstanding-revoke_found w now family (some row) =
    omega (arith, fewer_live (is_live row.family_id) now family w.sessions.tokens)

outstanding-end_doomed :
    (w : World) (f now family : ℕ) → outstanding family (end_doomed w f now) ≤ outstanding family w
unfolding end_doomed revoke_family
outstanding-end_doomed w f now family =
    ground (arith, fewer_live (is_live f) now family w.sessions.tokens)

-- No statement but a sign-in makes a session's usable tokens more.
pub exec-outstanding :
    (w : World) (s : Statement) (family : ℕ)
    → HasUniqueIds w.sessions.tokens
    → outstanding family (exec w s) ≤ outstanding family w + opened w s family
unfolding exec refresh find_refresh_token_by_hash logout revoke_all_for_user
    revoke_all_for_user_except
exec-outstanding w (refreshes hash now) family u =
    omega (arith, outstanding-refresh_found w hash now family _ u refl)
exec-outstanding w (issues allowed id input) family u =
    omega (arith, outstanding-issue_rotated w allowed id family input)
exec-outstanding w (ends_doomed f now) family u =
    omega (arith, outstanding-end_doomed w f now family)
exec-outstanding w (signs_in allowed id input) family u =
    outstanding-sign_in w allowed id family input
exec-outstanding w (logs_out hash now) family u = omega (
  arith,
  outstanding-revoke_found w now family (find (λ t. t.token_hash == hash) w.sessions.tokens),
)
exec-outstanding w (resets_password user now) family u = omega (
  arith,
  fewer_live (λ t. t.user_id == user && is_null t.revoked_at) now family w.sessions.tokens,
)
exec-outstanding w (changes_password user keep now) family u = omega (
  arith,
  fewer_live (λ t. t.user_id == user && is_null t.revoked_at && is_other keep t.family_id) now
      family w.sessions.tokens,
)
