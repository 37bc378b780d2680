-- ===== src/Sessions/Soundness.antt =====
-- Unique ids, and rotations that belong to a session, through every statement of AuthService
-- (apps/api/src/auth/auth.service.ts).
use videochat.Sessions.Table.{
  RefreshToken, CreateRefreshTokenInput, create_refresh_token, find_refresh_token_by_hash,
  revoke_refresh_token,
}
use videochat.Sessions.Requests.{
  Debt, World, is_debt, remove_debt, refresh_found, refresh, issue, issue_rotated, in_family,
  is_known, sign_in, revoke_found, logout, end_doomed, Statement, refreshes, issues, ends_doomed,
  signs_in, logs_out, resets_password, changes_password, exec,
}
use videochat.Sessions.Rotation.{of_family, HasUniqueIds}
use videochat.Sessions.Changes.{exec-Change, Change-HasUniqueIds, Change-in_family}
use videochat.Prelude.{
  ◌==◌, Bool-cases, any, find, ℕ, ◌≡◌, refl, sym, ◌⊎◌, inl, inr, Bool, true, false, ◌||◌, Option,
  none, some, List, [], ◌∷◌, arith,
}

-- What holds between two statements: unique ids, and whoever owes a token took one of its session.
pub record IsSound (w : World) : Type 0 where
  pub unique : HasUniqueIds w.sessions.tokens
  pub backed : (f : ℕ) → any (of_family f) w.owed ≡ true → is_known w f ≡ true

found_known :
    (hash : ℕ) (tokens : List RefreshToken) (row : RefreshToken)
    → find (λ t. t.token_hash == hash) tokens ≡ some row
    → any (in_family row.family_id) tokens ≡ true
found_known hash [] row e = cc
found_known hash (t ∷ ts) row e = ground (arith, found_known hash ts row)

fewer_debts :
    (user family f : ℕ) (ds : List Debt)
    → any (of_family f) (remove_debt user family ds) ≡ true
    → any (of_family f) ds ≡ true
fewer_debts user family f [] h = h
fewer_debts user family f (d ∷ ds) h = ground (arith, fewer_debts user family f ds, h)

refresh_owed :
    (w : World) (hash now f : ℕ) (o : Option RefreshToken)
    → find (λ t. t.token_hash == hash) w.sessions.tokens ≡ o
    → any (of_family f) (refresh_found w now o).owed ≡ true
    → (any (of_family f) w.owed ≡ true) ⊎ (is_known w f ≡ true)
unfolding revoke_refresh_token
refresh_owed w hash now f none e h = inl h
refresh_owed w hash now f (some row) e h =
    ground (arith, h, found_known hash w.sessions.tokens row e)

pub issue_owed :
    (w : World) (allowed : Bool) (id : ℕ) (input : CreateRefreshTokenInput)
    → (issue w allowed id input).owed ≡ w.owed
unfolding create_refresh_token
issue_owed w true id input =
    elim (Bool-cases
      (any (λ t. t.id == id || t.token_hash == input.token_hash) w.sessions.tokens)) [
        | inl e ↦ rw e refl
        | inr e ↦ rw e refl
      ]
issue_owed w false id input = refl

pub revoke_found_owed :
    (w : World) (now : ℕ) (o : Option RefreshToken) → (revoke_found w now o).owed ≡ w.owed
revoke_found_owed w now none = refl
revoke_found_owed w now (some row) = refl

exec-owed :
    (w : World) (s : Statement) (f : ℕ)
    → any (of_family f) (exec w s).owed ≡ true
    → (any (of_family f) w.owed ≡ true) ⊎ (is_known w f ≡ true)
unfolding exec refresh find_refresh_token_by_hash logout issue_rotated sign_in end_doomed
exec-owed w (refreshes hash now) f h = refresh_owed w hash now f _ refl h
exec-owed w (issues allowed id input) f h =
    let left : World = record w { owed = remove_debt input.user_id input.family_id w.owed } in
    elim (Bool-cases (any (is_debt input.user_id input.family_id) w.owed)) [
      | inl e ↦ inl (
          fewer_debts input.user_id input.family_id f w.owed
            (rw (sym (issue_owed left allowed id input)) (rw e at h)))
      | inr e ↦ inl (rw e at h)
    ]
exec-owed w (ends_doomed g now) f h = elim (Bool-cases (any (λ d. d == g) w.doomed)) [
  | inl e ↦ inl (rw e at h)
  | inr e ↦ inl (rw e at h)
]
exec-owed w (signs_in allowed id input) f h = elim (Bool-cases (is_known w input.family_id)) [
  | inl e ↦ inl (rw e at h)
  | inr e ↦ inl (rw (sym (issue_owed w allowed id input)) (rw e at h))
]
exec-owed w (logs_out hash now) f h =
    inl (rw (sym (revoke_found_owed w now (find (λ t. t.token_hash == hash) w.sessions.tokens))) h)
exec-owed w (resets_password user now) f h = inl h
exec-owed w (changes_password user keep now) f h = inl h

pub exec-is_known :
    (w : World) (s : Statement) (f : ℕ) → is_known w f ≡ true → is_known (exec w s) f ≡ true
exec-is_known w s f h = Change-in_family _ _ f (exec-Change w s) h

pub exec-IsSound : (w : World) (s : Statement) → IsSound w → IsSound (exec w s)
exec-IsSound w s sound = record {
  unique = Change-HasUniqueIds _ _ (exec-Change w s) sound.unique;
  backed = λ f h.
      exec-is_known w s f (elim (exec-owed w s f h) [ inl o ↦ sound.backed f o | inr k ↦ k ]);
}
