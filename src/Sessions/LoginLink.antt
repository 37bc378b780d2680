-- ===== src/Sessions/LoginLink.antt =====
-- Signing in with an emailed link or code: `verifyLoginLink` and the limit of
-- `requestLoginLink` (apps/api/src/auth/auth.service.ts), one request at a time. A token or a code
-- is its hash; which user an identifier names is an argument.
use mathlib.Core.Path.{subst}
use mathlib.Core.Option.{some-injective}
use videochat.Sessions.AuthTokens.{
  AuthTokenPurpose, login_link, login_code, AuthToken, set_consumed, consume_auth_token,
  count_recent_auth_tokens, is_outstanding, consume_all_auth_tokens, void_login_codes,
}
use videochat.Sessions.LoginDelay.{Account, reset_failed_logins, is_delayed}
use videochat.Prelude.{
  ltb, leb, ◌==◌, if◌then◌else◌, Bool-cases, update, count, ℕ, ◌+◌, ◌-◌, ◌*◌, ◌≤◌, ◌≡◌, refl, inl,
  inr, Bool, true, false, Option, none, some, List, [], ◌∷◌, arith,
}

abbrev pub login_code_max_failures : ℕ
login_code_max_failures = 5

abbrev pub login_links_per_window : ℕ
login_links_per_window = 3

abbrev pub login_link_ttl_minutes : ℕ
login_link_ttl_minutes = 15

pub record Mailbox : Type 0 where
  pub tokens : List AuthToken
  -- By user.
  pub accounts : ℕ → Account

abbrev pub set_account : ℕ → Account → (ℕ → Account) → ℕ → Account
set_account user a accounts k = if k == user then a else accounts k

abbrev pub mark_email_verified : Account → Account
mark_email_verified a = record a { is_email_verified = true }

unfoldable pub record_login_code_failure : Account → Account
record_login_code_failure a = record a { login_code_failures = a.login_code_failures + 1 }

pub data LoginLinkVerifyInput : Type 0 where
  by_token : (hash : ℕ) → LoginLinkVerifyInput
  -- The user that the identifier names, if there is one that is not deleted.
  by_code : (user : Option ℕ) → (hash : ℕ) → LoginLinkVerifyInput

-- The user who signs in, and whether `issueSession` lets them.
abbrev pub VerifyResult : Type 0
VerifyResult = Mailbox × Option ℕ

abbrev pub sign_in_by_mail : Mailbox → ℕ → ℕ → VerifyResult
sign_in_by_mail m user now = (
  record {
    tokens =
        consume_all_auth_tokens (consume_all_auth_tokens m.tokens user login_link now) user
          login_code now;
    accounts =
        set_account user (reset_failed_logins (mark_email_verified (m.accounts user))) m.accounts;
  },
  some user,
)

abbrev pub link_spent : Mailbox → Option AuthToken → ℕ → VerifyResult
link_spent m none now = (m, none)
link_spent m (some row) now = sign_in_by_mail m row.user_id now

-- A wrong code, which may be the last that is allowed.
abbrev pub wrong_code : Mailbox → ℕ → ℕ → Mailbox
wrong_code m user now =
    let a : Account = record_login_code_failure (m.accounts user) in
    record {
      tokens =
          if leb login_code_max_failures a.login_code_failures
          then void_login_codes m.tokens user now
          else m.tokens;
      accounts = set_account user a m.accounts;
    }

abbrev pub code_spent : Mailbox → ℕ → Option AuthToken → ℕ → VerifyResult
code_spent m user none now = (wrong_code m user now, none)
code_spent m user (some row) now = sign_in_by_mail m user now

abbrev pub spend : Mailbox → ℕ → AuthTokenPurpose → ℕ → Mailbox
spend m hash purpose now = record m { tokens = (consume_auth_token m.tokens hash purpose now).0 }

abbrev pub code_tried : Mailbox → Option ℕ → ℕ → ℕ → VerifyResult
code_tried m none hash now = (m, none)
code_tried m (some user) hash now =
    if leb login_code_max_failures (m.accounts user).login_code_failures
    then (m, none)
    else code_spent (spend m hash login_code now) user
        (consume_auth_token m.tokens hash login_code now).1 now

unfoldable pub verify_login_link : Mailbox → LoginLinkVerifyInput → ℕ → VerifyResult
verify_login_link m (by_token hash) now =
    link_spent (spend m hash login_link now) (consume_auth_token m.tokens hash login_link now).1 now
verify_login_link m (by_code user hash) now = code_tried m user hash now

-- `requestLoginLink` refuses when enough were sent in the last minutes.
unfoldable pub may_send_link : List AuthToken → ℕ → ℕ → Bool
may_send_link tokens user now =
    ltb (count_recent_auth_tokens tokens user login_link (now - login_link_ttl_minutes * 60000))
      login_links_per_window

none_outstanding :
    (user now : ℕ) (purpose : AuthTokenPurpose) (tokens : List AuthToken)
    → count
        (is_outstanding user purpose)
        (update (is_outstanding user purpose) (set_consumed now) tokens)
      ≡ 0
none_outstanding user now purpose [] = refl
none_outstanding user now purpose (t ∷ ts) = ground (arith, none_outstanding user now purpose ts)

fewer_outstanding :
    (user now : ℕ) (purpose : AuthTokenPurpose) (p : AuthToken → Bool) (tokens : List AuthToken)
    → count (is_outstanding user purpose) (update p (set_consumed now) tokens)
      ≤ count (is_outstanding user purpose) tokens
fewer_outstanding user now purpose p [] = omega arith
fewer_outstanding user now purpose p (t ∷ ts) =
    ground (arith, fewer_outstanding user now purpose p ts)

-- What signing in by mail leaves.
record IsUsedUp (m : Mailbox) (user : ℕ) : Type 0 where
  links : count (is_outstanding user login_link) m.tokens ≡ 0
  codes : count (is_outstanding user login_code) m.tokens ≡ 0
  undelayed : (now : ℕ) → is_delayed (m.accounts user).locked_until now ≡ false
  verified : (m.accounts user).is_email_verified ≡ true

abbrev UsedUp : VerifyResult → Type 0
UsedUp (m, none) = Unit
UsedUp (m, some user) = IsUsedUp m user

sign_in_by_mail-UsedUp : (m : Mailbox) (user now : ℕ) → UsedUp (sign_in_by_mail m user now)
unfolding consume_all_auth_tokens reset_failed_logins
sign_in_by_mail-UsedUp m user now =
    let links : List AuthToken = consume_all_auth_tokens m.tokens user login_link now in
    record {
      links = omega (
        arith,
        none_outstanding user now login_link m.tokens,
        fewer_outstanding user now login_link (is_outstanding user login_code) links,
      );
      codes = none_outstanding user now login_code links;
      undelayed = λ t. ground arith;
      verified = ground arith;
    }

link_spent-UsedUp : (m : Mailbox) (o : Option AuthToken) (now : ℕ) → UsedUp (link_spent m o now)
link_spent-UsedUp m none now = tt
link_spent-UsedUp m (some row) now = sign_in_by_mail-UsedUp m row.user_id now

code_spent-UsedUp :
    (m : Mailbox) (user : ℕ) (o : Option AuthToken) (now : ℕ) → UsedUp (code_spent m user o now)
code_spent-UsedUp m user none now = tt
code_spent-UsedUp m user (some row) now = sign_in_by_mail-UsedUp m user now

code_tried-UsedUp :
    (m : Mailbox) (user : Option ℕ) (hash now : ℕ) → UsedUp (code_tried m user hash now)
code_tried-UsedUp m none hash now = tt
code_tried-UsedUp m (some user) hash now =
    elim (Bool-cases (leb login_code_max_failures (m.accounts user).login_code_failures)) [
      | inl many ↦ rw many tt
      | inr few ↦ rw few (
          code_spent-UsedUp (spend m hash login_code now) user
            (consume_auth_token m.tokens hash login_code now).1 now)
    ]

verify-UsedUp :
    (m : Mailbox) (input : LoginLinkVerifyInput) (now : ℕ) → UsedUp (verify_login_link m input now)
unfolding verify_login_link
verify-UsedUp m (by_token hash) now = link_spent-UsedUp (spend m hash login_link now) _ now
verify-UsedUp m (by_code user hash) now = code_tried-UsedUp m user hash now

UsedUp-result : (o : VerifyResult) (user : ℕ) → o.1 ≡ some user → UsedUp o → IsUsedUp o.0 user
UsedUp-result (m, none) user e h = cc
UsedUp-result (m, some other) user e h =
    let same : other ≡ user = some-injective other user e in subst (IsUsedUp m) same h

-- When a link or a code signs a user in, no link and no code of that user can be spent any more,
-- the user's email is verified, and no delay of failed passwords is left.
pub mail_uses_up :
    (m : Mailbox) (input : LoginLinkVerifyInput) (user now : ℕ)
    → (verify_login_link m input now).1 ≡ some user
    → (count (is_outstanding user login_link) (verify_login_link m input now).0.tokens ≡ 0)
      × (count (is_outstanding user login_code) (verify_login_link m input now).0.tokens ≡ 0)
      × (((verify_login_link m input now).0.accounts user).is_email_verified ≡ true)
      × ((t : ℕ)
          → is_delayed ((verify_login_link m input now).0.accounts user).locked_until t ≡ false)
mail_uses_up m input user now e =
    let u : IsUsedUp (verify_login_link m input now).0 user =
      UsedUp-result (verify_login_link m input now) user e (verify-UsedUp m input now) in
    (u.links, u.codes, u.verified, u.undelayed)
