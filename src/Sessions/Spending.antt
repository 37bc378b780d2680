-- ===== src/Sessions/Spending.antt =====
-- Spending the one-time tokens of emails, over every sequence of statements of
-- apps/api/src/db/auth-tokens.ts, so over every interleaving of requests.
use videochat.Prelude.{
  ℕ, ◌+◌, ◌≤◌, ◌≡◌, refl, Bool, true, false, not, ◌&&◌, ◌||◌, Option, none, some, List, [], ◌∷◌,
  ◌++◌, arith, any, count, update, returning, head?, ◌==◌, is_null, Bool-cases, inl, inr, rows_of,
  count-append,
}
use videochat.Sessions.AuthTokens.{
  AuthToken, AuthTokenPurpose, CreateAuthTokenInput, create_auth_token, consume_auth_token,
  consume_all_auth_tokens, is_valid, is_outstanding, set_consumed,
}

pub data Statement : Type 0 where
  creates : (id : ℕ) → (input : CreateAuthTokenInput) → (now : ℕ) → Statement
  consumes : (hash : ℕ) → (purpose : AuthTokenPurpose) → (now : ℕ) → Statement
  consumes_all : (user : ℕ) → (purpose : AuthTokenPurpose) → (now : ℕ) → Statement

abbrev pub tokens_or : List AuthToken → Option (List AuthToken) → List AuthToken
tokens_or tokens none = tokens
tokens_or tokens (some created) = created

unfoldable pub exec : List AuthToken → Statement → List AuthToken
exec tokens (creates id input now) = tokens_or tokens (create_auth_token tokens id input now)
exec tokens (consumes hash purpose now) = (consume_auth_token tokens hash purpose now).0
exec tokens (consumes_all user purpose now) = consume_all_auth_tokens tokens user purpose now

-- The token that a statement hands to its caller as spent.
unfoldable pub spent : List AuthToken → Statement → List AuthToken
spent tokens (consumes hash purpose now) = rows_of (consume_auth_token tokens hash purpose now).1
spent tokens _ = []

unfoldable pub spent_all : List AuthToken → List Statement → List AuthToken
spent_all tokens [] = []
spent_all tokens (s ∷ ss) = spent tokens s ++ spent_all (exec tokens s) ss

abbrev pub has_hash : ℕ → AuthToken → Bool
has_hash h t = t.token_hash == h

abbrev pub is_spent : ℕ → AuthToken → Bool
is_spent h t = t.token_hash == h && not (is_null t.consumed_at)

-- At most one row has any given hash: the unique index.
abbrev pub HasUniqueHashes : List AuthToken → Type 0
HasUniqueHashes tokens = (h : ℕ) → count (has_hash h) tokens ≤ 1

spent-le-hash : (h : ℕ) (ts : List AuthToken) → count (is_spent h) ts ≤ count (has_hash h) ts
spent-le-hash h [] = omega arith
spent-le-hash h (t ∷ ts) = ground (arith, spent-le-hash h ts)

head-le-all :
    (p : AuthToken → Bool) (ts : List AuthToken) → count p (rows_of (head? ts)) ≤ count p ts
head-le-all p [] = omega arith
head-le-all p (t ∷ ts) = ground arith

returned_spent :
    (p : AuthToken → Bool) (now h : ℕ) (ts : List AuthToken)
    → ((t : AuthToken) → p t ≡ true → is_null t.consumed_at ≡ true)
    → count (has_hash h) (returning p (set_consumed now) ts) + count (is_spent h) ts
      ≡ count (is_spent h) (update p (set_consumed now) ts)
returned_spent p now h [] open_ = omega arith
returned_spent p now h (t ∷ ts) open_ = ground (arith, open_ t, returned_spent p now h ts open_)

hashes-update :
    (p : AuthToken → Bool) (now h : ℕ) (ts : List AuthToken)
    → count (has_hash h) (update p (set_consumed now) ts) ≡ count (has_hash h) ts
hashes-update p now h [] = refl
hashes-update p now h (t ∷ ts) = ground (arith, hashes-update p now h ts)

unused_hash :
    (id h : ℕ) (ts : List AuthToken)
    → any (λ t. t.id == id || t.token_hash == h) ts ≡ false
    → count (has_hash h) ts ≡ 0
unused_hash id h [] e = refl
unused_hash id h (t ∷ ts) e = ground (arith, unused_hash id h ts)

creates-HasUniqueHashes :
    (ts : List AuthToken) (id : ℕ) (input : CreateAuthTokenInput) (now : ℕ)
    → HasUniqueHashes ts
    → HasUniqueHashes (exec ts (creates id input now))
unfolding exec create_auth_token
creates-HasUniqueHashes ts id input now u h =
    elim (Bool-cases (any (λ t. t.id == id || t.token_hash == input.token_hash) ts)) [
      | inl e ↦ rw e (u h)
      | inr e ↦ rw e (ground (arith, u h, unused_hash id input.token_hash ts e))
    ]

exec-HasUniqueHashes :
    (ts : List AuthToken) (s : Statement) → HasUniqueHashes ts → HasUniqueHashes (exec ts s)
unfolding exec consume_auth_token consume_all_auth_tokens
exec-HasUniqueHashes ts (creates id input now) u h = creates-HasUniqueHashes ts id input now u h
exec-HasUniqueHashes ts (consumes hash purpose now) u h =
    omega (arith, u h, hashes-update (is_valid hash purpose now) now h ts)
exec-HasUniqueHashes ts (consumes_all user purpose now) u h =
    omega (arith, u h, hashes-update (is_outstanding user purpose) now h ts)

creates-spent :
    (ts : List AuthToken) (id : ℕ) (input : CreateAuthTokenInput) (now h : ℕ)
    → count (is_spent h) ts ≤ count (is_spent h) (exec ts (creates id input now))
unfolding exec create_auth_token
creates-spent ts id input now h =
    elim (Bool-cases (any (λ t. t.id == id || t.token_hash == input.token_hash) ts)) [
      | inl e ↦ rw e (omega arith)
      | inr e ↦ rw e (ground arith)
    ]

-- What a statement hands out as spent was not spent before, and is spent after it.
spent-count :
    (ts : List AuthToken) (s : Statement) (h : ℕ)
    → count (has_hash h) (spent ts s) + count (is_spent h) ts ≤ count (is_spent h) (exec ts s)
unfolding exec spent consume_auth_token consume_all_auth_tokens
spent-count ts (creates id input now) h = omega (arith, creates-spent ts id input now h)
spent-count ts (consumes hash purpose now) h = omega (
  arith,
  head-le-all (has_hash h) (returning (is_valid hash purpose now) (set_consumed now) ts),
  returned_spent (is_valid hash purpose now) now h ts (λ t e. ground arith),
)
spent-count ts (consumes_all user purpose now) h =
    omega (arith, returned_spent (is_outstanding user purpose) now h ts (λ t e. ground arith))

spent_all-count :
    (ts : List AuthToken) (ss : List Statement) (h : ℕ)
    → HasUniqueHashes ts
    → count (has_hash h) (spent_all ts ss) + count (is_spent h) ts ≤ 1
unfolding spent_all
spent_all-count ts [] h u = omega (arith, u h, spent-le-hash h ts)
spent_all-count ts (s ∷ ss) h u = omega (
  arith,
  count-append (has_hash h) (spent ts s) (spent_all (exec ts s) ss),
  spent-count ts s h,
  spent_all-count (exec ts s) ss h (exec-HasUniqueHashes ts s u),
)

-- However the statements of requests interleave, the token of an email is handed out as spent at
-- most once, and never if it was already spent.
pub spent_once :
    (tokens : List AuthToken) (ss : List Statement) (hash : ℕ)
    → HasUniqueHashes tokens
    → (count (has_hash hash) (spent_all tokens ss) ≤ 1)
      × (1 ≤ count (is_spent hash) tokens → count (has_hash hash) (spent_all tokens ss) ≡ 0)
spent_once tokens ss hash u = (
  omega (arith, spent_all-count tokens ss hash u),
  (λ e. omega (arith, e, spent_all-count tokens ss hash u)),
)
