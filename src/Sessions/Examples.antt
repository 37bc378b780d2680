-- ===== src/Sessions/Examples.antt =====
-- Sessions at concrete inputs: user 1 signs in (session 50, token hash 500); two requests present
-- that token at the same time.
use videochat.Sessions.Table.{
  RefreshToken, CreateRefreshTokenInput, create_refresh_token, find_refresh_token_by_hash,
  revoke_refresh_token, is_family_live, revoke_family,
}
use videochat.Sessions.Requests.{
  refresh, issue_rotated, sign_in, end_doomed, Statement, refreshes, issues, ends_doomed, signs_in,
  logs_out, exec, exec_all,
}
use videochat.Sessions.Rotation.{outstanding}
use videochat.Sessions.Lifetime.{nobody, one_live_token, revoked_for_good}
use videochat.Sessions.AuthTokens.{
  login_link, login_code, AuthToken, consume_auth_token, is_outstanding,
}
use videochat.Sessions.Spending
use videochat.Sessions.Spending.{consumes, spent, spent_all, has_hash, is_spent, spent_once}
use videochat.Sessions.LoginDelay.{
  Account, login, check_password_with_lockout, record_failed_login, reset_failed_logins, is_delayed,
}
use videochat.Sessions.LoginLink.{Mailbox, by_token, verify_login_link, mail_uses_up}
use videochat.Sessions.Guesses.{Guess, at_login, at_check, guesses_compared, guesses_bounded}
use videochat.Prelude.{count, ℕ, ◌≤◌, ◌≡◌, refl, true, false, none, some, List, [], ◌∷◌, arith}

abbrev fresh : ℕ → CreateRefreshTokenInput
fresh hash = record { user_id = 1; family_id = 50; token_hash = hash; expires_at = 9000 }

abbrev raced : List Statement
raced = signs_in true 1 (fresh 500) ∷ refreshes 500 2000 ∷ refreshes 500 2001 ∷ []

abbrev answered : List Statement
answered = ends_doomed 50 2002 ∷ []

-- A second refresh with the same token, which loses, and the answer to it.
abbrev meanwhile : List Statement
meanwhile = refreshes 500 2001 ∷ ends_doomed 50 2002 ∷ []

abbrev first_token : RefreshToken
first_token = record {
  id = 1;
  user_id = 1;
  family_id = 50;
  token_hash = 500;
  expires_at = 9000;
  revoked_at = none;
}

-- The reuse is answered, and the session lives on with the token that the winner then gets.
reuse_outlived :
    is_family_live
      (exec (exec_all (exec_all nobody raced) answered) (issues true 2 (fresh 501))).sessions.tokens
      50
      2500
    ≡ true
unfolding exec exec_all sign_in refresh end_doomed issue_rotated create_refresh_token
    find_refresh_token_by_hash revoke_refresh_token revoke_family is_family_live
reuse_outlived = refl

one_live_token_example : outstanding 50 (exec_all nobody raced) ≤ 1
one_live_token_example = one_live_token raced 50

abbrev signed_in_once : List Statement
signed_in_once = signs_in true 1 (fresh 500) ∷ []

abbrev afterwards : List Statement
afterwards = refreshes 500 3000 ∷ issues true 2 (fresh 501) ∷ signs_in true 3 (fresh 502) ∷ []

revoked_for_good_example :
    is_family_live
      (exec_all
        (exec (exec_all nobody signed_in_once) (logs_out 500 2000))
        afterwards).sessions.tokens
      50
      3500
    ≡ false
unfolding exec_all exec sign_in create_refresh_token find_refresh_token_by_hash
revoked_for_good_example =
    revoked_for_good signed_in_once afterwards (logs_out 500 2000) 50 3500 refl refl refl

abbrev emailed : AuthToken
emailed = record {
  id = 1;
  user_id = 1;
  purpose = login_link;
  token_hash = 70;
  expires_at = 900000;
  consumed_at = none;
  created_at = 0;
}

-- The link is followed twice at once.
abbrev clicked : List Spending.Statement
clicked = consumes 70 login_link 1000 ∷ consumes 70 login_link 1000 ∷ []

clicked_spends : count (has_hash 70) (spent_all (emailed ∷ []) clicked) ≡ 1
unfolding spent_all spent Spending.exec consume_auth_token
clicked_spends = refl

one_hash : (h : ℕ) → count (has_hash h) (emailed ∷ []) ≤ 1
one_hash h = ground arith

spent_once_example :
    (count (has_hash 70) (spent_all (emailed ∷ []) clicked) ≤ 1)
    × (1 ≤ count (is_spent 70) (emailed ∷ [])
        → count (has_hash 70) (spent_all (emailed ∷ []) clicked) ≡ 0)
spent_once_example = spent_once (emailed ∷ []) clicked 70 one_hash

abbrev account : Account
account = record {
  is_email_verified = true;
  failed_login_attempts = 0;
  locked_until = none;
  last_failed_login_at = none;
  login_code_failures = 0;
}

-- Five wrong passwords at once, a sixth that the delay refuses, one a minute later, and then the right
-- one, which resets the failures: the last wrong one counts from there.
abbrev guesses : List Guess
guesses =
    at_login 1000 false
    ∷ at_login 1000 false
    ∷ at_check 1000 false
    ∷ at_login 1000 false
    ∷ at_login 1000 false
    ∷ at_login 1000 false
    ∷ at_check 61000 false
    ∷ at_login 261000 true
    ∷ at_login 262000 false
    ∷ []

guesses_counted : guesses_compared account guesses ≡ 6
unfolding guesses_compared login check_password_with_lockout record_failed_login reset_failed_logins
guesses_counted = refl

guesses_bounded_example : guesses_compared account guesses ≤ 19
guesses_bounded_example = guesses_bounded account 1000 guesses refl refl refl (ground arith)

-- The email's link and its code, and an account that is delayed.
abbrev code : AuthToken
code = record emailed { id = 2; purpose = login_code; token_hash = 71 }

abbrev mailbox : Mailbox
mailbox = record {
  tokens = emailed ∷ code ∷ [];
  accounts = λ user. record account { failed_login_attempts = 5; locked_until = some 90000 };
}

mail_uses_up_example :
    (count (is_outstanding 1 login_link) (verify_login_link mailbox (by_token 70) 60000).0.tokens
      ≡ 0)
    × (count (is_outstanding 1 login_code) (verify_login_link mailbox (by_token 70) 60000).0.tokens
        ≡ 0)
    × (((verify_login_link mailbox (by_token 70) 60000).0.accounts 1).is_email_verified ≡ true)
    × ((t : ℕ)
        → is_delayed ((verify_login_link mailbox (by_token 70) 60000).0.accounts 1).locked_until t
          ≡ false)
mail_uses_up_example =
    mail_uses_up mailbox (by_token 70) 1 60000 (unfold verify_login_link consume_auth_token in refl)
