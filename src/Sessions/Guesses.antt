-- ===== src/Sessions/Guesses.antt =====
-- How many passwords can be tried on one account, one request after the other (the delay of
-- apps/api/src/auth/auth.service.ts).
use mathlib.Core.Path.{subst}
use mathlib.Core.Option.{some-injective}
use videochat.Prelude.{
  ℕ, zero, suc, ◌+◌, ◌≤◌, ◌<◌, ◌≡◌, ◌≢◌, refl, ◌&&◌, Bool, true, false, Option, none, some, List,
  [], ◌∷◌, arith, ltb, leb, Bool-cases, inl, inr, if◌then◌else◌, All,
}
use videochat.Sessions.LoginDelay.{
  Account, LoginResult, throttled, is_delayed, delay_ms, is_forgotten, attempts_after,
  record_failed_login, reset_failed_logins, login, check_password_with_lockout,
}

-- A password, right or wrong, tried by signing in or by a check of a signed-in user; or a sign-in
-- by the emailed link or code, which resets the failures.
pub data Guess : Type 0 where
  at_login at_check : (now : ℕ) → (ok : Bool) → Guess
  by_mail : (now : ℕ) → Guess

abbrev pub time_of : Guess → ℕ
time_of (at_login now ok) = now
time_of (at_check now ok) = now
time_of (by_mail now) = now

abbrev pub try : Account → Guess → Account
try a (at_login now ok) = (login a now ok true).0
try a (at_check now ok) = (check_password_with_lockout a now ok).0
try a (by_mail now) = reset_failed_logins a

abbrev was_compared : LoginResult → Bool
was_compared (throttled seconds) = false
was_compared _ = true

abbrev was_checked : Option Bool → Bool
was_checked none = false
was_checked (some ok) = true

-- Whether a password is compared at all.
abbrev pub is_compared : Account → Guess → Bool
is_compared a (at_login now ok) = was_compared (login a now ok true).1
is_compared a (at_check now ok) = was_checked (check_password_with_lockout a now ok).1
is_compared a (by_mail now) = false

-- Whether the owner's password or mail is accepted.
abbrev pub is_accepted : Account → Guess → Bool
is_accepted a (at_login now ok) = ok && is_compared a (at_login now ok)
is_accepted a (at_check now ok) = ok && is_compared a (at_check now ok)
is_accepted a (by_mail now) = true

-- How many wrong passwords are compared before one of the guesses is accepted.
unfoldable pub guesses_compared : Account → List Guess → ℕ
guesses_compared a [] = 0
guesses_compared a (g ∷ gs) =
    let rest = guesses_compared (try a g) gs in
    if is_accepted a g then 0 else if is_compared a g then suc rest else rest

-- After that many failures in a row, the next guess waits at least that long from the first.
due : ℕ → ℕ
due zero = 0
due (suc n) = due n + (if leb 5 (suc n) then delay_ms (suc n) else 0)

due_small : (n : ℕ) → n < 5 → due n ≡ 0
unfolding due
due_small zero h = refl
due_small (suc n) h = ground (arith, due_small n)

due_twenty : due 19 ≡ 3750000
unfolding due
due_twenty = refl

-- The account after n failures since the time.
record Failed (start n : ℕ) (a : Account) : Type 0 where
  attempts : a.failed_login_attempts ≡ n
  recent : (last : ℕ) → a.last_failed_login_at ≡ some last → start ≤ last
  remembered : 1 ≤ n → (last : ℕ) × (a.last_failed_login_at ≡ some last)
  later : (now : ℕ) → start ≤ now → is_delayed a.locked_until now ≡ false → start + due n ≤ now

next_of :
    (o : Option ℕ) (start n now : ℕ)
    → (1 ≤ n → (last : ℕ) × (o ≡ some last))
    → ((last : ℕ) → o ≡ some last → start ≤ last)
    → now < start + 3600000
    → (if is_forgotten o now then 1 else n + 1) ≡ suc n
next_of none start zero now remembered recent hi = refl
next_of none start (suc n) now remembered recent hi = cc ((remembered (omega arith)).1)
next_of (some last) start n now remembered recent hi = ground (arith, recent last refl)

attempts_next :
    (start n now : ℕ) (a : Account)
    → Failed start n a
    → now < start + 3600000
    → attempts_after a now ≡ suc n
attempts_next start n now a h hi =
    rw h.attempts (next_of a.last_failed_login_at start n now h.remembered h.recent hi)

later_of :
    (start n now later : ℕ)
    → start + due n ≤ now
    → start ≤ later
    → is_delayed (if leb 5 (suc n) then some (now + delay_ms (suc n)) else none) later ≡ false
    → start + due (suc n) ≤ later
unfolding due
later_of start n now later lo hi free = elim (Bool-cases (leb 5 (suc n))) [
  | inl e ↦
      let free' : ltb later (now + delay_ms (suc n)) ≡ false = rw e at free in
      rw e (ground (arith, free'))
  | inr e ↦ rw e (ground (arith, due_small n))
]

Failed-record_failed_login :
    (start n now : ℕ) (a : Account)
    → Failed start n a
    → start ≤ now
    → now < start + 3600000
    → is_delayed a.locked_until now ≡ false
    → Failed start (suc n) (record_failed_login a now)
unfolding record_failed_login
Failed-record_failed_login start n now a h lo hi free =
    let next : attempts_after a now ≡ suc n = attempts_next start n now a h hi in
    record {
      attempts = next;
      recent = λ last e. subst (λ k. start ≤ k) (some-injective now last e) lo;
      remembered = λ k. (now, refl);
      later = λ later from open_.
          later_of start n now later (h.later now lo free) from (rw next at open_);
    }

tried :
    (g : Guess) (a : Account)
    → is_accepted a g ≡ false
    → is_delayed a.locked_until (time_of g) ≡ false
    → (is_compared a g ≡ true) × (try a g ≡ record_failed_login a (time_of g))
unfolding login check_password_with_lockout
tried (at_login now false) a open_ e = (ground (arith, e), rw (try, e) refl)
tried (at_check now false) a open_ e = (ground (arith, e), rw (try, e) refl)
tried (at_login now true) a open_ e = absurd (ground (arith, e, open_))
tried (at_check now true) a open_ e = absurd (ground (arith, e, open_))
tried (by_mail now) a open_ e = cc

refused :
    (g : Guess) (a : Account)
    → is_accepted a g ≡ false
    → is_delayed a.locked_until (time_of g) ≡ true
    → (is_compared a g ≡ false) × (try a g ≡ a)
unfolding login check_password_with_lockout
refused (at_login now ok) a open_ e = (ground (arith, e), rw (try, e) refl)
refused (at_check now ok) a open_ e = (ground (arith, e), rw (try, e) refl)
refused (by_mail now) a open_ e = cc

-- Within an hour of the time.
abbrev pub IsWithinHour : ℕ → Guess → Type 0
IsWithinHour start g = (start ≤ time_of g) × (time_of g < start + 3600000)

nineteen :
    (start n : ℕ) (a : Account) (gs : List Guess)
    → Failed start n a
    → n ≤ 19
    → All (IsWithinHour start) gs
    → n + guesses_compared a gs ≤ 19
unfolding guesses_compared
nineteen start n a [] h le hour = omega (arith, le)
nineteen start n a (g ∷ gs) h le hour = elim (Bool-cases (is_accepted a g)) [
  | inl accepted ↦ rw accepted (omega (arith, le))
  | inr open_ ↦ rw open_ (elim (Bool-cases (is_delayed a.locked_until (time_of g))) [
    | inl e ↦
        let (compared, same) = refused g a open_ e in
        rw compared (rw same (nineteen start n a gs h le hour.1))
    | inr e ↦
        let (compared, next) = tried g a open_ e in
        let again : Failed start (suc n) (try a g) =
          rw next (Failed-record_failed_login start n (time_of g) a h hour.0.0 hour.0.1 e) in
        let room : n ≢ 19 = λ full. absurd (
          omega (
            arith,
            hour.0.1,
            due_twenty,
            subst (λ k. start + due k ≤ time_of g) full (h.later (time_of g) hour.0.0 e),
          )) in
        rw compared (
          omega (arith, nineteen start (suc n) (try a g) gs again (omega (arith, room, le)) hour.1))
  ])
]

-- On an account without failures, whatever is tried within an hour, one after the other: at most 19
-- wrong passwords are compared before the first right one is compared or a sign-in by mail
-- succeeds.
pub guesses_bounded :
    (a : Account) (start : ℕ) (gs : List Guess)
    → a.failed_login_attempts ≡ 0
    → a.locked_until ≡ none
    → a.last_failed_login_at ≡ none
    → All (IsWithinHour start) gs
    → guesses_compared a gs ≤ 19
guesses_bounded a start gs none_ free never hour = omega (
  arith,
  nineteen start 0 a gs
      (record {
        attempts = none_;
        recent = λ last e. cc;
        remembered = λ k. absurd (omega (arith, k));
        later = λ now from e. rw (due_small 0 (omega arith)) (omega (arith, from));
      })
      (omega arith) hour,
)
