-- ===== src/Sessions/Lifetime.antt =====
-- How long a session lives, over every interleaving of the requests of AuthService
-- (apps/api/src/auth/auth.service.ts) that issue, rotate and revoke refresh tokens.
use videochat.Sessions.Table.{
  RefreshToken, find_refresh_token_by_hash, set_revoked, is_live, is_family_live, revoke_family,
}
use videochat.Sessions.Requests.{
  Debt, World, in_family, is_known, revoke_found, logout, end_doomed, Statement, refreshes, issues,
  ends_doomed, signs_in, logs_out, resets_password, changes_password, exec, exec_all,
}
use videochat.Sessions.Rotation.{of_family, outstanding, opened, exec-outstanding}
use videochat.Sessions.Soundness.{IsSound, exec-is_known, exec-IsSound}
use videochat.Prelude.{
  ◌==◌, Bool-cases, any, update, count, ℕ, ◌≤◌, ◌≡◌, refl, ◌≢◌, inl, inr, Bool, true, false, ◌&&◌,
  Option, none, some, List, [], ◌∷◌, arith,
}

nothing_live :
    (f : ℕ) (tokens : List RefreshToken)
    → any (in_family f) tokens ≡ false
    → count (is_live f) tokens ≡ 0
nothing_live f [] h = refl
nothing_live f (t ∷ ts) h = ground (arith, nothing_live f ts)

nothing_owed : (f : ℕ) (ds : List Debt) → any (of_family f) ds ≡ false → count (of_family f) ds ≡ 0
nothing_owed f [] h = refl
nothing_owed f (d ∷ ds) h = ground (arith, nothing_owed f ds)

unknown_outstanding : (w : World) (f : ℕ) → IsSound w → is_known w f ≡ false → outstanding f w ≡ 0
unknown_outstanding w f sound unknown = elim (Bool-cases (any (of_family f) w.owed)) [
  | inl e ↦ cc (sound.backed f e)
  | inr e ↦ omega (arith, nothing_live f w.sessions.tokens unknown, nothing_owed f w.owed e)
]

known_apart : (w : World) (a b : ℕ) → is_known w a ≡ false → is_known w b ≡ true → a ≢ b
known_apart w a b ha hb e = cc

no_reopening : (w : World) (s : Statement) (f : ℕ) → is_known w f ≡ true → opened w s f ≡ 0
no_reopening w (signs_in allowed id input) f known =
    elim (Bool-cases (is_known w input.family_id)) [
      | inl e ↦ rw e refl
      | inr e ↦ rw e (ground (arith, known_apart w input.family_id f e known))
    ]
no_reopening w (refreshes hash now) f known = refl
no_reopening w (issues allowed id input) f known = refl
no_reopening w (ends_doomed g now) f known = refl
no_reopening w (logs_out hash now) f known = refl
no_reopening w (resets_password user now) f known = refl
no_reopening w (changes_password user keep now) f known = refl

opened_one : (w : World) (s : Statement) (f : ℕ) → opened w s f ≤ 1
opened_one w (signs_in allowed id input) f = ground arith
opened_one w (refreshes hash now) f = omega arith
opened_one w (issues allowed id input) f = omega arith
opened_one w (ends_doomed g now) f = omega arith
opened_one w (logs_out hash now) f = omega arith
opened_one w (resets_password user now) f = omega arith
opened_one w (changes_password user keep now) f = omega arith

exec-single :
    (w : World) (s : Statement) (f : ℕ)
    → IsSound w
    → outstanding f w ≤ 1
    → outstanding f (exec w s) ≤ 1
exec-single w s f sound one = elim (Bool-cases (is_known w f)) [
  | inl known ↦ omega (arith, exec-outstanding w s f sound.unique, no_reopening w s f known)
  | inr unknown ↦ omega (
    arith,
    exec-outstanding w s f sound.unique,
    unknown_outstanding w f sound unknown,
    opened_one w s f,
  )
]

exec_all-single :
    (w : World) (ss : List Statement) (f : ℕ)
    → IsSound w
    → outstanding f w ≤ 1
    → outstanding f (exec_all w ss) ≤ 1
unfolding exec_all
exec_all-single w [] f sound one = one
exec_all-single w (s ∷ ss) f sound one =
    exec_all-single (exec w s) ss f (exec-IsSound w s sound) (exec-single w s f sound one)

-- No token, nobody signed in.
abbrev pub nobody : World
nobody = record { sessions = record { tokens = []; devices = [] }; owed = []; doomed = [] }

nobody-IsSound : IsSound nobody
nobody-IsSound = record { unique = λ k. omega arith; backed = λ f h. cc }

exec_all-IsSound : (w : World) (ss : List Statement) → IsSound w → IsSound (exec_all w ss)
unfolding exec_all
exec_all-IsSound w [] sound = sound
exec_all-IsSound w (s ∷ ss) sound = exec_all-IsSound (exec w s) ss (exec-IsSound w s sound)

-- In whatever order sign-ins, refreshes (each as its two or three statements), logouts and password
-- changes run from an empty table, a session has at most one unrevoked refresh token, counting
-- the token that a request which won a rotation has yet to issue.
pub one_live_token :
    (ss : List Statement) (family : ℕ) → outstanding family (exec_all nobody ss) ≤ 1
one_live_token ss family = exec_all-single nobody ss family nobody-IsSound (omega arith)

exec_all-outstanding :
    (w : World) (ss : List Statement) (f : ℕ)
    → IsSound w
    → is_known w f ≡ true
    → outstanding f (exec_all w ss) ≤ outstanding f w
unfolding exec_all
exec_all-outstanding w [] f sound known = omega arith
exec_all-outstanding w (s ∷ ss) f sound known = omega (
  arith,
  exec_all-outstanding (exec w s) ss f (exec-IsSound w s sound) (exec-is_known w s f known),
  exec-outstanding w s f sound.unique,
  no_reopening w s f known,
)

not_live :
    (f now : ℕ) (tokens : List RefreshToken)
    → count (is_live f) tokens ≡ 0
    → is_family_live tokens f now ≡ false
unfolding is_family_live
not_live f now [] h = refl
not_live f now (t ∷ ts) h = ground (arith, not_live f now ts)

-- The statements that end one session: `logout` with a token of it, and the answer to a reuse.
abbrev pub is_of : ℕ → Option RefreshToken → Bool
is_of family none = false
is_of family (some row) = row.family_id == family

abbrev pub ends_session : World → ℕ → Statement → Bool
ends_session w family (logs_out hash now) =
    is_of family (find_refresh_token_by_hash w.sessions.tokens hash)
ends_session w family (ends_doomed f now) = f == family && any (λ d. d == f) w.doomed
ends_session w family _ = false

none_left :
    (g f now : ℕ) (tokens : List RefreshToken)
    → (g == f) ≡ true
    → count (is_live f) (update (is_live g) (set_revoked now) tokens) ≡ 0
none_left g f now [] e = refl
none_left g f now (t ∷ ts) e = ground (arith, none_left g f now ts e)

revoke_found-ends :
    (w : World) (f now : ℕ) (o : Option RefreshToken)
    → is_of f o ≡ true
    → outstanding f (revoke_found w now o) ≡ count (of_family f) w.owed
unfolding revoke_family
revoke_found-ends w f now none h = cc
revoke_found-ends w f now (some row) h =
    omega (arith, none_left row.family_id f now w.sessions.tokens h)

ends_session-outstanding :
    (w : World) (s : Statement) (f : ℕ)
    → ends_session w f s ≡ true
    → outstanding f (exec w s) ≡ count (of_family f) w.owed
unfolding exec logout end_doomed revoke_family
ends_session-outstanding w (logs_out hash now) f h =
    revoke_found-ends w f now (find_refresh_token_by_hash w.sessions.tokens hash) h
ends_session-outstanding w (ends_doomed g now) f h =
    elim (Bool-cases (any (λ d. d == g) w.doomed)) [
      | inl e ↦ rw e (omega (arith, none_left g f now w.sessions.tokens (ground (arith, h))))
      | inr e ↦ absurd (ground (arith, rw e at h))
    ]
ends_session-outstanding w (refreshes hash now) f h = cc
ends_session-outstanding w (issues allowed id input) f h = cc
ends_session-outstanding w (signs_in allowed id input) f h = cc
ends_session-outstanding w (resets_password user now) f h = cc
ends_session-outstanding w (changes_password user keep now) f h = cc

-- Ending a session (a logout with one of its tokens, or the answer to a reused token) while no
-- request is about to issue a token of it is final: whatever requests run afterwards, the session
-- has no usable token at any time.
pub revoked_for_good :
    (before after : List Statement) (s : Statement) (family now : ℕ)
    → ends_session (exec_all nobody before) family s ≡ true
    → is_known (exec_all nobody before) family ≡ true
    → any (of_family family) (exec_all nobody before).owed ≡ false
    → is_family_live (exec_all (exec (exec_all nobody before) s) after).sessions.tokens family now
      ≡ false
revoked_for_good before after s family now ends known quiet =
    let w : World = exec_all nobody before in
    let sound : IsSound w = exec_all-IsSound nobody before nobody-IsSound in
    not_live family now (exec_all (exec w s) after).sessions.tokens (
      omega (
        arith,
        exec_all-outstanding (exec w s) after family (exec-IsSound w s sound)
            (exec-is_known w s family known),
        ends_session-outstanding w s family ends,
        nothing_owed family w.owed quiet,
      ))
