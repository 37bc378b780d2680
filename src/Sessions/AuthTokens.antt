-- ===== src/Sessions/AuthTokens.antt =====
-- The one-time tokens of emails: apps/api/src/db/auth-tokens.ts, with the columns of
-- apps/api/src/db/schema.ts, and who may spend one. Hashes are opaque.
use videochat.Prelude.{
  if◌then◌else◌, ℕ, Bool, true, false, ◌&&◌, ◌||◌, Option, none, some, List, ◌∷◌, any, find, count,
  update, returning, head?, ltb, leb, ◌==◌, is_null,
}

pub data AuthTokenPurpose : Type 0 where
  email_verify password_reset login_link login_code : AuthTokenPurpose

abbrev pub purpose_eq : AuthTokenPurpose → AuthTokenPurpose → Bool
purpose_eq email_verify email_verify = true
purpose_eq password_reset password_reset = true
purpose_eq login_link login_link = true
purpose_eq login_code login_code = true
purpose_eq _ _ = false

pub record AuthToken : Type 0 where
  pub id : ℕ
  pub user_id : ℕ
  pub purpose : AuthTokenPurpose
  pub token_hash : ℕ
  pub expires_at : ℕ
  pub consumed_at : Option ℕ
  pub created_at : ℕ

pub record CreateAuthTokenInput : Type 0 where
  pub user_id : ℕ
  pub purpose : AuthTokenPurpose
  pub token_hash : ℕ
  pub expires_at : ℕ

abbrev pub new_auth_token : ℕ → CreateAuthTokenInput → ℕ → AuthToken
new_auth_token id input now = record {
  id = id;
  user_id = input.user_id;
  purpose = input.purpose;
  token_hash = input.token_hash;
  expires_at = input.expires_at;
  consumed_at = none;
  created_at = now;
}

-- The primary key and the unique index on the hash; a taken key throws.
unfoldable pub create_auth_token :
    List AuthToken → ℕ → CreateAuthTokenInput → ℕ → Option (List AuthToken)
create_auth_token tokens id input now =
    if any (λ t. t.id == id || t.token_hash == input.token_hash) tokens
    then none
    else some (new_auth_token id input now ∷ tokens)

abbrev pub is_valid : ℕ → AuthTokenPurpose → ℕ → AuthToken → Bool
is_valid hash purpose now t =
    t.token_hash == hash
    && purpose_eq t.purpose purpose
    && is_null t.consumed_at
    && ltb now t.expires_at

abbrev pub set_consumed : ℕ → AuthToken → AuthToken
set_consumed now t = record t { consumed_at = some now }

unfoldable pub find_valid_auth_token : List AuthToken → ℕ → AuthTokenPurpose → ℕ → Option AuthToken
find_valid_auth_token tokens hash purpose now = find (is_valid hash purpose now) tokens

unfoldable pub consume_auth_token :
    List AuthToken → ℕ → AuthTokenPurpose → ℕ → List AuthToken × Option AuthToken
consume_auth_token tokens hash purpose now = (
  update (is_valid hash purpose now) (set_consumed now) tokens,
  head? (returning (is_valid hash purpose now) (set_consumed now) tokens),
)

unfoldable pub count_recent_auth_tokens : List AuthToken → ℕ → AuthTokenPurpose → ℕ → ℕ
count_recent_auth_tokens tokens user purpose since =
    count (λ t. t.user_id == user && purpose_eq t.purpose purpose && leb since t.created_at) tokens

abbrev pub is_outstanding : ℕ → AuthTokenPurpose → AuthToken → Bool
is_outstanding user purpose t =
    t.user_id == user && purpose_eq t.purpose purpose && is_null t.consumed_at

unfoldable pub consume_all_auth_tokens : List AuthToken → ℕ → AuthTokenPurpose → ℕ → List AuthToken
consume_all_auth_tokens tokens user purpose now =
    update (is_outstanding user purpose) (set_consumed now) tokens

unfoldable pub void_login_codes : List AuthToken → ℕ → ℕ → List AuthToken
void_login_codes tokens user now = consume_all_auth_tokens tokens user login_code now
