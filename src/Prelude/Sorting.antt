-- ===== src/Prelude/Sorting.antt =====
-- `ORDER BY` and `list.sort`, for an order that is strict on the rows at hand.
use Prim.Native.Nat.{ℕ, zero, suc}
use mathlib.Core.Path.{◌≡◌, refl, ap, ◌∙◌}
use mathlib.Core.Bool.{Bool, true, false, ◌||◌, ◌&&◌}
use mathlib.Core.List.{List, [], ◌∷◌}
use mathlib.Core.Logic.{inl, inr}
use mathlib.Core.Option.{some, some-injective, none}
use native.Mathlib.Omega.{arith}
use videochat.Prelude.Tests.{is_null, if◌then◌else◌, Bool-cases, Option-cases, is_null}
use videochat.Prelude.Lists.{All, All-imp, take, drop, last?, last?-none, All-last_take, head?}
use videochat.Prelude.Sql.{select}

module _ {ℓ} {A : Type ℓ} (before : A → A → Bool) where
  abbrev pub insert_by : A → List A → List A
  insert_by x [] = x ∷ []
  insert_by x (y ∷ ys) = let rest = insert_by x ys in if before x y then x ∷ y ∷ ys else y ∷ rest

  abbrev pub order_by : List A → List A
  order_by [] = []
  order_by (x ∷ xs) = insert_by x (order_by xs)

  abbrev pub IsSorted : List A → Type 0
  IsSorted [] = Unit
  IsSorted (x ∷ xs) = All (λ y. before x y ≡ true) xs × IsSorted xs

  -- Any two rows are in some order.
  abbrev pub IsDistinct : List A → Type 0
  IsDistinct [] = Unit
  IsDistinct (x ∷ xs) = All (λ y. (before x y || before y x) ≡ true) xs × IsDistinct xs

-- A strict order.
pub record IsOrder {ℓ} {A : Type ℓ} (before : A → A → Bool) : Type ℓ where
  pub trans : (a b c : A) → before a b ≡ true → before b c ≡ true → before a c ≡ true
  pub irrefl : (a : A) → before a a ≡ false

module _ {ℓ κ} {A : Type ℓ} (P : A → Type κ) where
  All-insert_by :
      (before : A → A → Bool) (x : A) (ys : List A) → P x → All P ys → All P (insert_by before x ys)
  All-insert_by before x [] h k = (h, tt)
  All-insert_by before x (y ∷ ys) h k = elim (Bool-cases (before x y)) [
    | inl e ↦ rw e (h, k)
    | inr e ↦ rw e (k.0, All-insert_by before x ys h k.1)
  ]

  pub All-order_by : (before : A → A → Bool) (xs : List A) → All P xs → All P (order_by before xs)
  All-order_by before [] h = tt
  All-order_by before (x ∷ xs) h =
      All-insert_by before x (order_by before xs) h.0 (All-order_by before xs h.1)

  pub All-select : (p : A → Bool) (xs : List A) → All P xs → All P (select p xs)
  All-select p [] h = tt
  All-select p (x ∷ xs) h = elim (Bool-cases (p x)) [
    | inl e ↦ rw e (h.0, All-select p xs h.1)
    | inr e ↦ rw e (All-select p xs h.1)
  ]

module _ {ℓ} {A : Type ℓ} (before : A → A → Bool) (order : IsOrder before) where
  insert_by-IsSorted :
      (x : A) (ys : List A)
      → All (λ y. (before x y || before y x) ≡ true) ys
      → IsSorted before ys
      → IsSorted before (insert_by before x ys)
  insert_by-IsSorted x [] d s = (tt, tt)
  insert_by-IsSorted x (y ∷ ys) d s = elim (Bool-cases (before x y)) [
    | inl e ↦ rw e (
      (
        e,
        All-imp (λ z. before y z ≡ true) (λ z. before x z ≡ true) ys (λ z k. order.trans x y z e k)
            s.0,
      ),
      s,
    )
    | inr e ↦ rw e (
      All-insert_by (λ z. before y z ≡ true) before x ys (ground (arith, d.0)) s.0,
      insert_by-IsSorted x ys d.1 s.1,
    )
  ]

  pub order_by-IsSorted :
      (xs : List A) → IsDistinct before xs → IsSorted before (order_by before xs)
  order_by-IsSorted [] d = tt
  order_by-IsSorted (x ∷ xs) d =
      insert_by-IsSorted x (order_by before xs)
        (All-order_by (λ y. (before x y || before y x) ≡ true) before xs d.0)
        (order_by-IsSorted xs d.1)

  insert_by-front :
      (x : A) (ys : List A) → All (λ y. before x y ≡ true) ys → insert_by before x ys ≡ x ∷ ys
  insert_by-front x [] h = refl
  insert_by-front x (y ∷ ys) h = rw h.0 refl

  select-insert_by :
      (p : A → Bool) (x : A) (ys : List A)
      → IsSorted before ys
      → select p (insert_by before x ys)
        ≡ (if p x then insert_by before x (select p ys) else select p ys)
  select-insert_by p x [] s = refl
  select-insert_by p x (y ∷ ys) s = elim (Bool-cases (before x y)) [
    | inl e ↦ rw e (
        ground (
          arith,
          insert_by-front x (select p (y ∷ ys)) (
              All-select (λ z. before x z ≡ true) p (y ∷ ys)
                (
                  e,
                  All-imp (λ z. before y z ≡ true) (λ z. before x z ≡ true) ys
                      (λ z k. order.trans x y z e k) s.0,
                )),
        ))
    | inr e ↦ rw e (ground (arith, select-insert_by p x ys s.1))
  ]

  pub select-order_by :
      (p : A → Bool) (xs : List A)
      → IsDistinct before xs
      → select p (order_by before xs) ≡ order_by before (select p xs)
  select-order_by p [] d = refl
  select-order_by p (x ∷ xs) d = ground (
    arith,
    select-insert_by p x (order_by before xs) (order_by-IsSorted xs d.1),
    select-order_by p xs d.1,
  )

  select-All : (p : A → Bool) (xs : List A) → All (λ x. p x ≡ true) xs → select p xs ≡ xs
  select-All p [] h = refl
  select-All p (x ∷ xs) h = rw h.0 (ap (λ (t : List A). x ∷ t) (select-All p xs h.1))

  drop-none : (n : ℕ) (xs : List A) → take n xs ≡ [] → drop n xs ≡ xs
  drop-none zero xs e = refl
  drop-none (suc n) [] e = refl
  drop-none (suc n) (x ∷ xs) e = cc

  -- The rows after a page are those that come after its last row.
  pub rest-after_page :
      (n : ℕ) (xs : List A) (l : A)
      → IsSorted before xs
      → last? (take n xs) ≡ some l
      → select (before l) xs ≡ drop n xs
  rest-after_page zero xs l s e = cc
  rest-after_page (suc n) [] l s e = cc
  rest-after_page (suc n) (x ∷ xs) l s e = elim (Option-cases (last? (take n xs))) [
    | inl f ↦
        let here : x ≡ l = some-injective x l (rw f at e) in
        ground (
          arith,
          here,
          select-All (before x) xs s.0,
          order.irrefl x,
          drop-none n xs (last?-none (take n xs) f),
        )
    | inr (y, f) ↦
        let there : last? (take n xs) ≡ some l = f ∙ rw f at e in
        let first = All-last_take (λ y. before x y ≡ true) n xs l there s.0 in
        ground
          (arith, rest-after_page n xs l s.1 there, first, order.irrefl x, order.trans x l x first)
  ]

module _ {ℓ} {A : Type ℓ} where
  pub select-select :
      (p q r : A → Bool) (xs : List A)
      → ((x : A) → (q x && p x) ≡ r x)
      → select p (select q xs) ≡ select r xs
  select-select p q r [] e = refl
  select-select p q r (x ∷ xs) e = ground (arith, e x, select-select p q r xs e)

  pub All-select_self : (p : A → Bool) (xs : List A) → All (λ x. p x ≡ true) (select p xs)
  All-select_self p [] = tt
  All-select_self p (x ∷ xs) = elim (Bool-cases (p x)) [
    | inl e ↦ rw e (e, All-select_self p xs)
    | inr e ↦ rw e (All-select_self p xs)
  ]

  pub IsDistinct-select :
      (before : A → A → Bool) (p : A → Bool) (xs : List A)
      → IsDistinct before xs
      → IsDistinct before (select p xs)
  IsDistinct-select before p [] d = tt
  IsDistinct-select before p (x ∷ xs) d = elim (Bool-cases (p x)) [
    | inl e ↦ rw e (
      All-select (λ y. (before x y || before y x) ≡ true) p xs d.0,
      IsDistinct-select before p xs d.1,
    )
    | inr e ↦ rw e (IsDistinct-select before p xs d.1)
  ]

  insert_by-some :
      (before : A → A → Bool) (x : A) (xs : List A)
      → is_null (head? (insert_by before x xs)) ≡ false
  insert_by-some before x [] = refl
  insert_by-some before x (y ∷ ys) = ground arith

  pub order_by-none :
      (before : A → A → Bool) (xs : List A) → head? (order_by before xs) ≡ none → xs ≡ []
  order_by-none before [] e = refl
  order_by-none before (x ∷ xs) e = ground (arith, insert_by-some before x (order_by before xs))
