-- ===== src/Prelude/Lists.antt =====
-- Lists measured by native numbers, and predicates of their elements.
use Prim.Native.Nat.{ℕ, zero, suc, ◌+◌, ◌≤◌, min}
use mathlib.Core.Logic.{inl, inr}
use videochat.Prelude.Tests.{Option-cases}
use mathlib.Core.Path.{◌≡◌, refl, ap, subst, ◌∙◌}
use mathlib.Core.Bool.{Bool, false, ◌||◌}
use mathlib.Core.List.{List, [], ◌∷◌, ◌++◌}
use mathlib.Core.Option.{Option, none, some, some-injective}
use native.Mathlib.Omega.{arith}

module _ {ℓ} {A : Type ℓ} where
  abbrev pub length : List A → ℕ
  length [] = 0
  length (x ∷ xs) = suc (length xs)

  abbrev pub take : ℕ → List A → List A
  take zero xs = []
  take (suc n) [] = []
  take (suc n) (x ∷ xs) = x ∷ take n xs

  abbrev pub drop : ℕ → List A → List A
  drop zero xs = xs
  drop (suc n) [] = []
  drop (suc n) (x ∷ xs) = drop n xs

  -- `list[0]`, and the row of a query with `limit 1`.
  abbrev pub head? : List A → Option A
  head? [] = none
  head? (x ∷ xs) = some x

  -- The rows of a statement that returns one row or none.
  abbrev pub rows_of : Option A → List A
  rows_of none = []
  rows_of (some x) = x ∷ []

  -- `list.some(p)`.
  abbrev pub any : (A → Bool) → List A → Bool
  any p [] = false
  any p (x ∷ xs) = p x || any p xs

  pub length-append : (xs ys : List A) → length (xs ++ ys) ≡ length xs + length ys
  length-append [] ys = omega arith
  length-append (x ∷ xs) ys = omega (arith, length-append xs ys)

  pub length-take : (n : ℕ) (xs : List A) → length (take n xs) ≡ min n (length xs)
  length-take zero xs = omega arith
  length-take (suc n) [] = omega arith
  length-take (suc n) (x ∷ xs) = omega (arith, length-take n xs)

module _ {ℓ κ} {A : Type ℓ} where
  abbrev pub All : (A → Type κ) → List A → Type κ
  All P [] = Unit
  All P (x ∷ xs) = P x × All P xs

  pub All-append : (P : A → Type κ) (xs ys : List A) → All P xs → All P ys → All P (xs ++ ys)
  All-append P [] ys hx hy = hy
  All-append P (x ∷ xs) ys hx hy = (hx.0, All-append P xs ys hx.1 hy)

module _ {ℓ κ μ} {A : Type ℓ} where
  pub All-imp :
      (P : A → Type κ) (Q : A → Type μ) (xs : List A) → ((x : A) → P x → Q x) → All P xs → All Q xs
  All-imp P Q [] f h = tt
  All-imp P Q (x ∷ xs) f h = (f x h.0, All-imp P Q xs f h.1)

module _ {ℓ} {A : Type ℓ} where
  -- `list.at(-1)`.
  abbrev pub last? : List A → Option A
  last? [] = none
  last? (x ∷ xs) = elim (last? xs) [ none ↦ some x | some y ↦ some y ]

  pub last?-none : (xs : List A) → last? xs ≡ none → xs ≡ []
  last?-none [] e = refl
  last?-none (x ∷ xs) e = elim (Option-cases (last? xs)) [
    | inl f ↦ ground (arith, rw f at e)
    | inr (y, f) ↦ ground (arith, rw f at e)
  ]

  pub take-nil : (n : ℕ) → take {A = A} n [] ≡ []
  take-nil zero = refl
  take-nil (suc n) = refl

  pub take-append-drop : (m n : ℕ) (xs : List A) → take m xs ++ take n (drop m xs) ≡ take (m + n) xs
  take-append-drop zero n xs = ground arith
  take-append-drop (suc m) zero [] = ground arith
  take-append-drop (suc m) (suc n) [] = ground (arith, take-nil (suc m + suc n))
  take-append-drop (suc m) n (x ∷ xs) =
      let next : suc (m + n) ≡ suc m + n = omega arith in
      subst (λ k. take (suc m) (x ∷ xs) ++ take n (drop (suc m) (x ∷ xs)) ≡ take k (x ∷ xs)) next
        (ap (λ (t : List A). x ∷ t) (take-append-drop m n xs))

  pub take-long : (n : ℕ) (xs : List A) → length xs ≤ n → take n xs ≡ xs
  take-long zero [] h = refl
  take-long zero (x ∷ xs) h = ground arith
  take-long (suc n) [] h = refl
  take-long (suc n) (x ∷ xs) h = ground (arith, take-long n xs)

  pub take-take_suc : (n : ℕ) (xs : List A) → take n (take (n + 1) xs) ≡ take n xs
  take-take_suc zero xs = refl
  take-take_suc (suc n) [] = ground arith
  take-take_suc (suc n) (x ∷ xs) = ground (arith, take-take_suc n xs)

  pub last?-take :
      (n : ℕ) (xs : List A) → 1 ≤ n → 1 ≤ length xs → (l : A) × (last? (take n xs) ≡ some l)
  last?-take zero xs h k = absurd (omega (arith, h))
  last?-take (suc n) [] h k = absurd (omega (arith, k))
  last?-take (suc n) (x ∷ xs) h k = elim (Option-cases (last? (take n xs))) [
    | inl f ↦ (x, rw f refl)
    | inr (y, f) ↦ (y, rw f refl)
  ]

module _ {ℓ κ} {A : Type ℓ} (P : A → Type κ) where
  pub All-last_take : (n : ℕ) (xs : List A) (l : A) → last? (take n xs) ≡ some l → All P xs → P l
  All-last_take zero xs l e h = cc
  All-last_take (suc n) [] l e h = cc
  All-last_take (suc n) (x ∷ xs) l e h = elim (Option-cases (last? (take n xs))) [
    | inl f ↦ subst P (some-injective x l (rw f at e)) h.0
    | inr (y, f) ↦ All-last_take n xs l (f ∙ rw f at e) h.1
  ]
