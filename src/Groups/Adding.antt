-- ===== src/Groups/Adding.antt =====
-- Adding members to a group.
use videochat.Prelude.{
  ℕ, ◌≡◌, refl, inl, inr, Bool, true, not, List, [], ◌∷◌, arith, any, update, select, Bool-cases,
  All, ◌&&◌, ◌==◌,
}
use videochat.Tables.{User, Membership, is_member_row}
use videochat.Groups.Table.{
  add_group_members, insert_members, upsert_members, upsert_member, added, rejoin, is_row_of,
  lock_live_users, has_duplicate,
}

rejoin-active :
    (c now u v : ℕ) (ms : List Membership)
    → any (is_member_row c v) ms ≡ true
    → any (is_member_row c v) (update (is_row_of c u) (rejoin now) ms) ≡ true
rejoin-active c now u v [] h = h
rejoin-active c now u v (m ∷ ms) h = ground (arith, rejoin-active c now u v ms)

rejoin-joins :
    (c now u : ℕ) (ms : List Membership)
    → any (is_row_of c u) ms ≡ true
    → any (is_member_row c u) (update (is_row_of c u) (rejoin now) ms) ≡ true
rejoin-joins c now u [] h = h
rejoin-joins c now u (m ∷ ms) h = ground (arith, rejoin-joins c now u ms)

upsert_member-active :
    (c now u v : ℕ) (ms : List Membership)
    → any (is_member_row c v) ms ≡ true
    → any (is_member_row c v) (upsert_member c now ms u) ≡ true
upsert_member-active c now u v ms h = elim (Bool-cases (any (is_row_of c u) ms)) [
  | inl e ↦ rw e (rejoin-active c now u v ms h)
  | inr e ↦ rw e (ground (arith, h))
]

upsert_member-joins :
    (c now u : ℕ) (ms : List Membership) → any (is_member_row c u) (upsert_member c now ms u) ≡ true
upsert_member-joins c now u ms = elim (Bool-cases (any (is_row_of c u) ms)) [
  | inl e ↦ rw e (rejoin-joins c now u ms e)
  | inr e ↦ rw e (ground arith)
]

upsert_members-active :
    (c now v : ℕ) (ms : List Membership) (us : List ℕ)
    → any (is_member_row c v) ms ≡ true
    → any (is_member_row c v) (upsert_members c now ms us) ≡ true
upsert_members-active c now v ms [] h = h
upsert_members-active c now v ms (u ∷ us) h =
    upsert_members-active c now v (upsert_member c now ms u) us
      (upsert_member-active c now u v ms h)

upsert_members-join :
    (c now : ℕ) (ms : List Membership) (us : List ℕ)
    → All (λ u. any (is_member_row c u) (upsert_members c now ms us) ≡ true) us
upsert_members-join c now ms [] = tt
upsert_members-join c now ms (u ∷ us) = (
  upsert_members-active c now u (upsert_member c now ms u) us (upsert_member-joins c now u ms),
  upsert_members-join c now (upsert_member c now ms u) us,
)

module _ {κ} (Q : ℕ → Type κ) where
  All-select-not :
      (p : ℕ → Bool) (xs : List ℕ)
      → ((x : ℕ) → p x ≡ true → Q x)
      → All Q (select (λ x. not (p x)) xs)
      → All Q xs
  All-select-not p [] h k = tt
  All-select-not p (x ∷ xs) h k = elim (Bool-cases (p x)) [
    | inl e ↦ (h x e, All-select-not p xs h (rw e at k))
    | inr e ↦ let both = rw e at k in (both.0, All-select-not p xs h both.1)
  ]

insert_members-added :
    (ms : List Membership) (users : List User) (c now : ℕ) (us ids : List ℕ)
    → (insert_members ms users c now us).1 ≡ added ids
    → ((insert_members ms users c now us).0 ≡ upsert_members c now ms us) × (ids ≡ us)
insert_members-added ms users c now [] ids e = ground arith
insert_members-added ms users c now (u ∷ us) ids e =
    elim (Bool-cases (lock_live_users users (u ∷ us))) [
      | inl l ↦ elim (Bool-cases (has_duplicate (u ∷ us))) [
        | inl d ↦ ground (arith, rw d at rw l at e)
        | inr d ↦ rw l (rw d (refl, ground (arith, rw d at rw l at e)))
      ]
      | inr l ↦ ground (arith, rw l at e)
    ]

any-select :
    (p : ℕ → Bool) (xs : List ℕ) (v : ℕ)
    → any (λ u. u == v) (select p xs) ≡ (any (λ u. u == v) xs && p v)
any-select p [] v = refl
any-select p (x ∷ xs) v = ground (arith, any-select p xs v)

-- Where adding people succeeds, everybody who was asked for is a current member afterwards, who
-- was a member before still is, and the reported ones are exactly those who were asked for and
-- were not members before.
pub add_group_members-joins :
    (ms : List Membership) (users : List User) (c now : ℕ) (user_ids ids : List ℕ)
    → (add_group_members ms users c user_ids now).1 ≡ added ids
    → All
        (λ u. any (is_member_row c u) (add_group_members ms users c user_ids now).0 ≡ true)
        user_ids
      × ((v : ℕ)
          → any (is_member_row c v) ms ≡ true
          → any (is_member_row c v) (add_group_members ms users c user_ids now).0 ≡ true)
      × ((v : ℕ)
          → any (λ u. u == v) ids
            ≡ (any (λ u. u == v) user_ids && not (any (is_member_row c v) ms)))
unfolding add_group_members
add_group_members-joins ms users c now user_ids ids e =
    let new = select (λ u. not (any (is_member_row c u) ms)) user_ids in
    let (table, same) = insert_members-added ms users c now new ids e in
    (
      All-select-not _ (λ u. any (is_member_row c u) ms) user_ids
          (λ u h. rw table (upsert_members-active c now u ms new h))
          (rw table (upsert_members-join c now ms new)),
      (λ v h. rw table (upsert_members-active c now v ms new h)),
      (λ v. rw same (any-select (λ u. not (any (is_member_row c u) ms)) user_ids v)),
    )
