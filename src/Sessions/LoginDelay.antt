-- ===== src/Sessions/LoginDelay.antt =====
-- Password sign-in with its growing delay: `login`, `checkPasswordWithLockout`, `refuseWhileDelayed`
-- and `recordFailure` of apps/api/src/auth/auth.service.ts with the statements of
-- apps/api/src/db/users.ts that they run, for one account. Times are in milliseconds. Whether the
-- password is right (`verifyPassword`, a library) is an argument.
use Prim.Native.Nat.{min, ◌^◌, ◌/◌}
use videochat.Prelude.{
  ℕ, ◌+◌, ◌-◌, ◌*◌, Bool, true, false, Option, none, some, ltb, leb, if◌then◌else◌,
}

pub record Account : Type 0 where
  pub is_email_verified : Bool
  pub failed_login_attempts : ℕ
  pub locked_until : Option ℕ
  pub last_failed_login_at : Option ℕ
  pub login_code_failures : ℕ

-- `LIMITS`.
abbrev pub login_attempts_before_lockout : ℕ
login_attempts_before_lockout = 5

abbrev pub login_delay_base_seconds : ℕ
login_delay_base_seconds = 30

abbrev pub login_delay_max_seconds : ℕ
login_delay_max_seconds = 300

abbrev pub login_failure_window_minutes : ℕ
login_failure_window_minutes = 60

abbrev pub delay_ms : ℕ → ℕ
delay_ms attempts =
    min (login_delay_base_seconds * 2 ^ (attempts - login_attempts_before_lockout))
      login_delay_max_seconds
    * 1000

abbrev pub is_forgotten : Option ℕ → ℕ → Bool
is_forgotten none now = true
is_forgotten (some last) now = ltb (last + login_failure_window_minutes * 60000) now

abbrev pub attempts_after : Account → ℕ → ℕ
attempts_after a now =
    if is_forgotten a.last_failed_login_at now then 1 else a.failed_login_attempts + 1

unfoldable pub record_failed_login : Account → ℕ → Account
record_failed_login a now = record a {
  failed_login_attempts = attempts_after a now;
  last_failed_login_at = some now;
  locked_until =
      if leb login_attempts_before_lockout (attempts_after a now)
      then some (now + delay_ms (attempts_after a now))
      else none;
}

unfoldable pub reset_failed_logins : Account → Account
reset_failed_logins a = record a {
  failed_login_attempts = 0;
  locked_until = none;
  last_failed_login_at = none;
  login_code_failures = 0;
}

abbrev pub is_delayed : Option ℕ → ℕ → Bool
is_delayed none now = false
is_delayed (some until) now = ltb now until

-- The seconds that remain, rounded up.
abbrev pub seconds_left : Option ℕ → ℕ → ℕ
seconds_left none now = 0
seconds_left (some until) now = (until - now + 999) / 1000

pub data LoginResult : Type 0 where
  throttled : (retry_after_sec : ℕ) → LoginResult
  invalid : LoginResult
  unverified : LoginResult
  restricted : LoginResult
  issued : LoginResult

-- What follows the password check of `login`; `allowed` is whether `issueSession` finds the user
-- neither suspended nor banned.
abbrev pub signed_in : Account → Bool → LoginResult
signed_in a allowed =
    if a.is_email_verified then (if allowed then issued else restricted) else unverified

unfoldable pub login : Account → ℕ → Bool → Bool → Account × LoginResult
login a now ok allowed =
    if is_delayed a.locked_until now
    then (a, throttled (seconds_left a.locked_until now))
    else if ok
    then (reset_failed_logins a, signed_in a allowed)
    else (record_failed_login a now, invalid)

-- `none` when the delay refuses, else whether the password was right.
unfoldable pub check_password_with_lockout : Account → ℕ → Bool → Account × Option Bool
check_password_with_lockout a now ok =
    if is_delayed a.locked_until now
    then (a, none)
    else if ok
    then (if ltb 0 a.failed_login_attempts then reset_failed_logins a else a, some true)
    else (record_failed_login a now, some false)
