-- ===== src/Prelude/Sql.antt =====
-- The meaning of the SQL statements that the data-access functions (apps/api/src/db) build.
-- A table is the list of its rows; its order carries no meaning. A statement is one atomic
-- function of the table: it is what PostgreSQL promises of a single statement.
use Prim.Native.Nat.{ℕ, suc, ◌+◌, ◌≤◌}
use mathlib.Core.Path.{◌≡◌, refl, ap, subst}
use mathlib.Core.Bool.{Bool, true, false, not}
use mathlib.Core.List.{List, [], ◌∷◌, ◌++◌, map}
use mathlib.Core.Logic.{inl, inr}
use mathlib.Core.Option
use mathlib.Core.Option.{Option, none, some, some-injective}
use native.Mathlib.Omega.{arith}
use videochat.Prelude.Tests.{if◌then◌else◌, is_null, Bool-cases}
use videochat.Prelude.Lists.{All, any, head?}

module _ {ℓ} {A : Type ℓ} where
  -- `SELECT … WHERE p`; also `list.filter(p)`.
  abbrev pub select : (A → Bool) → List A → List A
  select p [] = []
  select p (x ∷ xs) = let rest = select p xs in if p x then x ∷ rest else rest

  -- `SELECT … WHERE p LIMIT 1`; also `list.find(p)`.
  abbrev pub find : (A → Bool) → List A → Option A
  find p xs = head? (select p xs)

  -- What `UPDATE … SET f WHERE p` makes of one row.
  abbrev pub set_where : (A → Bool) → (A → A) → A → A
  set_where p f x = if p x then f x else x

  -- The table after `UPDATE … SET f WHERE p`.
  abbrev pub update : (A → Bool) → (A → A) → List A → List A
  update p f [] = []
  update p f (x ∷ xs) = set_where p f x ∷ update p f xs

  -- What `UPDATE … SET f WHERE p RETURNING *` returns.
  abbrev pub returning : (A → Bool) → (A → A) → List A → List A
  returning p f xs = map f (select p xs)

  -- How many rows satisfy a test.
  abbrev pub count : (A → Bool) → List A → ℕ
  count p [] = 0
  count p (x ∷ xs) = let rest = count p xs in if p x then suc rest else rest

  pub All-update {κ} :
      (P : A → Type κ) (p : A → Bool) (f : A → A) (xs : List A)
      → ((x : A) → p x ≡ true → P x → P (f x))
      → All P xs
      → All P (update p f xs)
  All-update P p f [] keep h = tt
  All-update P p f (x ∷ xs) keep h = elim (Bool-cases (p x)) [
    | inl e ↦ rw e (keep x e h.0, All-update P p f xs keep h.1)
    | inr e ↦ rw e (h.0, All-update P p f xs keep h.1)
  ]

  -- Looking a row up by what the update does not change.
  pub find-update :
      (q p : A → Bool) (f : A → A) (xs : List A)
      → ((x : A) → q (f x) ≡ q x)
      → find q (update p f xs) ≡ Option.map (set_where p f) (find q xs)
  find-update q p f [] same = refl
  find-update q p f (x ∷ xs) same = ground (arith, find-update q p f xs same, same x)

  pub count-append : (p : A → Bool) (xs ys : List A) → count p (xs ++ ys) ≡ count p xs + count p ys
  count-append p [] ys = omega arith
  count-append p (x ∷ xs) ys = ground (arith, count-append p xs ys)

  -- An update moves the rows it returns into a class of rows, when it takes rows from outside the
  -- class and its results lie inside.
  pub count-returning :
      (q p : A → Bool) (f : A → A) (xs : List A)
      → ((x : A) → p x ≡ true → q x ≡ false)
      → count q (returning p f xs) + count q xs ≡ count q (update p f xs)
  count-returning q p f [] out = omega arith
  count-returning q p f (x ∷ xs) out = elim (Bool-cases (p x)) [
    | inl e ↦ rw e (ground (arith, out x e, count-returning q p f xs out))
    | inr e ↦ rw e (ground (arith, count-returning q p f xs out))
  ]

  -- An update that leaves a class as it was.
  pub count-update :
      (q p : A → Bool) (f : A → A) (xs : List A)
      → ((x : A) → p x ≡ true → q (f x) ≡ q x)
      → count q (update p f xs) ≡ count q xs
  count-update q p f [] same = refl
  count-update q p f (x ∷ xs) same = elim (Bool-cases (p x)) [
    | inl e ↦ rw e (ground (arith, same x e, count-update q p f xs same))
    | inr e ↦ rw e (ground (arith, count-update q p f xs same))
  ]

  pub any-find : (p : A → Bool) (xs : List A) → any p xs ≡ not (is_null (find p xs))
  any-find p [] = refl
  any-find p (x ∷ xs) = ground (arith, any-find p xs)

  pub find-holds : (p : A → Bool) (xs : List A) (a : A) → find p xs ≡ some a → p a ≡ true
  find-holds p [] a h = cc
  find-holds p (x ∷ xs) a h = ground (arith, find-holds p xs a)

module _ {ℓ κ μ} {A : Type ℓ} (P : A → Type κ) (Q : A → Type μ) where
  pub All-returning :
      (p : A → Bool) (f : A → A) (xs : List A)
      → ((x : A) → p x ≡ true → P x → Q (f x))
      → All P xs
      → All Q (returning p f xs)
  All-returning p f [] keep h = tt
  All-returning p f (x ∷ xs) keep h = elim (Bool-cases (p x)) [
    | inl e ↦ rw e (keep x e h.0, All-returning p f xs keep h.1)
    | inr e ↦ rw e (All-returning p f xs keep h.1)
  ]

module _ {ℓ κ} {A : Type ℓ} (P : A → Type κ) where
  pub All-head? : (xs : List A) (a : A) → head? xs ≡ some a → All P xs → P a
  All-head? [] a e h = cc
  All-head? (x ∷ xs) a e h = subst P (some-injective x a e) h.0

  pub All-find : (p : A → Bool) (xs : List A) (a : A) → find p xs ≡ some a → All P xs → P a
  All-find p [] a e h = cc
  All-find p (x ∷ xs) a e h = elim (Bool-cases (p x)) [
    | inl t ↦ subst P (some-injective x a (rw t at e)) h.0
    | inr t ↦ All-find p xs a (rw t at e) h.1
  ]

module _ {ℓ} {A : Type ℓ} where
  pub any-update :
      (q p : A → Bool) (f : A → A) (xs : List A)
      → ((x : A) → q (f x) ≡ q x)
      → any q (update p f xs) ≡ any q xs
  any-update q p f [] same = refl
  any-update q p f (x ∷ xs) same = ground (arith, same x, any-update q p f xs same)

  -- An update that no row is in the way of.
  pub update-none :
      (p : A → Bool) (f : A → A) (xs : List A)
      → All (λ x. p x ≡ false) xs
      → (update p f xs ≡ xs) × (returning p f xs ≡ [])
  update-none p f [] h = (refl, refl)
  update-none p f (x ∷ xs) h =
      let (same, none_) = update-none p f xs h.1 in
      (rw h.0 (ap (λ (t : List A). x ∷ t) same), rw h.0 none_)

module _ {ℓ κ} {A : Type ℓ} {B : Type κ} where
  pub head?-map :
      (f : A → B) (xs : List A) (a : A) → head? xs ≡ some a → head? (map f xs) ≡ some (f a)
  head?-map f [] a e = cc
  head?-map f (x ∷ xs) a e = cc

  pub head?-map-none : (f : A → B) (xs : List A) → head? xs ≡ none → head? (map f xs) ≡ none
  head?-map-none f [] e = refl
  head?-map-none f (x ∷ xs) e = cc

  pub head?-map_all : (f : A → B) (xs : List A) → head? (map f xs) ≡ Option.map f (head? xs)
  head?-map_all f [] = refl
  head?-map_all f (x ∷ xs) = refl

module _ {ℓ} {A : Type ℓ} where
  pub count-find :
      (q p : A → Bool) (xs : List A) (a : A) → find q xs ≡ some a → p a ≡ true → 1 ≤ count p xs
  count-find q p [] a e h = cc
  count-find q p (x ∷ xs) a e h = elim (Bool-cases (q x)) [
    | inl t ↦
        let same : x ≡ a = some-injective x a (rw t at e) in
        let px : p x ≡ true = rw same h in rw px (omega arith)
    | inr t ↦ ground (arith, count-find q p xs a (rw t at e) h)
  ]

  -- A row that one test finds is found by any other test that it alone passes.
  pub find-only :
      (q p : A → Bool) (xs : List A) (a : A)
      → find q xs ≡ some a
      → p a ≡ true
      → count p xs ≤ 1
      → find p xs ≡ some a
  find-only q p [] a e h only = cc
  find-only q p (x ∷ xs) a e h only = elim (Bool-cases (q x)) [
    | inl t ↦
        let same : x ≡ a = some-injective x a (rw t at e) in
        let px : p x ≡ true = rw same h in rw px (ap some same)
    | inr t ↦ ground (arith, count-find q p xs a (rw t at e) h, find-only q p xs a (rw t at e) h)
  ]
