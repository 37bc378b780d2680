-- ===== src/Groups/Leaving.antt =====
-- Leaving a group: who is left to administer it.
use mathlib.Core.Option
use mathlib.Core.Path.{subst}
use videochat.Prelude.{
  sym, head?-map_all, ℕ, ◌≤◌, ◌≡◌, refl, inl, inr, true, false, Option, none, some, List, [], ◌∷◌,
  arith, any, count, update, select, find, head?, Bool-cases, order_by, All, All-order_by,
  All-head?, count-update, All-imp, order_by-none, any-find,
}
use videochat.Tables.{Membership, is_admin, is_member_row}
use videochat.Groups.Table.{
  is_active, is_active_admin, is_row_of, set_left, set_admin, joined_before, leave_conversation,
  leave_rest, promote,
}

-- A group that has a member has an admin; and the primary key.
pub record IsGroup (c : ℕ) (memberships : List Membership) : Type 0 where
  pub one_row : (u : ℕ) → count (is_row_of c u) memberships ≤ 1
  pub has_admin : any (is_active c) memberships ≡ true → any (is_active_admin c) memberships ≡ true

update-none_found :
    (c u now : ℕ) (ms : List Membership)
    → find (is_member_row c u) ms ≡ none
    → update (is_member_row c u) (set_left now) ms ≡ ms
update-none_found c u now [] e = refl
update-none_found c u now (m ∷ ms) e = ground (arith, update-none_found c u now ms)

left-active :
    (c u now : ℕ) (ms : List Membership)
    → any (is_active c) (update (is_member_row c u) (set_left now) ms) ≡ true
    → any (is_active c) ms ≡ true
left-active c u now [] e = e
left-active c u now (m ∷ ms) e = ground (arith, left-active c u now ms)

count-left :
    (c v u now : ℕ) (ms : List Membership)
    → count (is_row_of c v) (update (is_member_row c u) (set_left now) ms)
      ≡ count (is_row_of c v) ms
count-left c v u now ms =
    count-update (is_row_of c v) (is_member_row c u) (set_left now) ms (λ m e. refl)

no_row-update :
    (c u now : ℕ) (ms : List Membership)
    → count (is_row_of c u) ms ≤ 0
    → update (is_member_row c u) (set_left now) ms ≡ ms
no_row-update c u now [] h = refl
no_row-update c u now (m ∷ ms) h = ground (arith, no_row-update c u now ms)

-- A plain member who leaves takes no admin away.
member-leaves :
    (c u now : ℕ) (ms : List Membership) (r : Membership)
    → count (is_row_of c u) ms ≤ 1
    → find (is_member_row c u) ms ≡ some r
    → is_admin r.role ≡ false
    → any (is_active_admin c) ms ≡ true
    → any (is_active_admin c) (update (is_member_row c u) (set_left now) ms) ≡ true
member-leaves c u now [] r one e plain h = cc
member-leaves c u now (m ∷ ms) r one e plain h = elim (Bool-cases (is_member_row c u m)) [
  | inl t ↦ ground (arith, no_row-update c u now ms, t)
  | inr t ↦ ground (arith, member-leaves c u now ms r, t)
]

promoted-admin :
    (c u : ℕ) (ms : List Membership)
    → any (is_member_row c u) ms ≡ true
    → any (is_active_admin c) (update (is_row_of c u) set_admin ms) ≡ true
promoted-admin c u [] h = cc
promoted-admin c u (m ∷ ms) h = ground (arith, promoted-admin c u ms)

select-members :
    (c : ℕ) (ms : List Membership)
    → All (λ m. any (is_member_row c m.user_id) ms ≡ true) (select (is_active c) ms)
select-members c [] = tt
select-members c (m ∷ ms) =
    let rest =
      All-imp (λ x. any (is_member_row c x.user_id) ms ≡ true)
        (λ x. any (is_member_row c x.user_id) (m ∷ ms) ≡ true) (select (is_active c) ms)
        (λ x h. ground arith) (select-members c ms) in
    elim (Bool-cases (is_active c m)) [ inl e ↦ rw e (ground (arith, e), rest) | inr e ↦ rw e rest ]

oldest-admin :
    (c : ℕ) (ms : List Membership) (o : Membership)
    → head? (order_by joined_before (select (is_active c) ms)) ≡ some o
    → any (is_active_admin c) (update (is_row_of c o.user_id) set_admin ms) ≡ true
oldest-admin c ms o e = promoted-admin c o.user_id ms (
    All-head? (λ m. any (is_member_row c m.user_id) ms ≡ true) _ o e
      (All-order_by (λ m. any (is_member_row c m.user_id) ms ≡ true) joined_before _
        (select-members c ms)))

promote-has_admin :
    (c : ℕ) (ms : List Membership) (o : Option Membership)
    → head? (order_by joined_before (select (is_active c) ms)) ≡ o
    → any (is_active c) (promote ms c o).0 ≡ true
    → any (is_active_admin c) (promote ms c o).0 ≡ true
promote-has_admin c ms none e h =
    ground
      (arith, order_by-none joined_before (select (is_active c) ms) e, any-find (is_active c) ms)
promote-has_admin c ms (some o) e h = oldest-admin c ms o e

-- The rest of the transaction, over the table where the leaver has left.
leave_rest-has_admin :
    (c : ℕ) (ms : List Membership) (r : Membership)
    → (is_admin r.role ≡ false → any (is_active c) ms ≡ true → any (is_active_admin c) ms ≡ true)
    → any (is_active c) (leave_rest ms c (some r)).0 ≡ true
    → any (is_active_admin c) (leave_rest ms c (some r)).0 ≡ true
leave_rest-has_admin c ms r plain h = elim (Bool-cases (is_admin r.role)) [
  | inl e ↦ elim (Bool-cases (any (is_active_admin c) ms)) [
    | inl k ↦ rw e (rw k k)
    | inr k ↦ rw e (rw k (promote-has_admin c ms _ refl (rw k at rw e at h)))
  ]
  | inr e ↦ rw e (plain e (rw e at h))
]

promote-count :
    (c u : ℕ) (ms : List Membership) (o : Option Membership)
    → count (is_row_of c u) (promote ms c o).0 ≡ count (is_row_of c u) ms
promote-count c u ms none = refl
promote-count c u ms (some o) =
    count-update (is_row_of c u) (is_row_of c o.user_id) set_admin ms (λ m e. refl)

leave_rest-count :
    (c u : ℕ) (ms : List Membership) (o : Option Membership)
    → count (is_row_of c u) (leave_rest ms c o).0 ≡ count (is_row_of c u) ms
leave_rest-count c u ms none = refl
leave_rest-count c u ms (some r) =
    let promoted =
      promote-count c u ms (head? (order_by joined_before (select (is_active c) ms))) in
    elim (Bool-cases (is_admin r.role)) [
      | inl e ↦ elim (Bool-cases (any (is_active_admin c) ms)) [
        | inl k ↦ rw e (rw k refl)
        | inr k ↦ rw e (rw k promoted)
      ]
      | inr e ↦ rw e refl
    ]

leave_with :
    (c : ℕ) (ms : List Membership) (u now : ℕ) (o : Option Membership)
    → find (is_member_row c u) ms ≡ o
    → IsGroup c ms
    → IsGroup c
        (leave_rest
          (update (is_member_row c u) (set_left now) ms)
          c
          (Option.map (set_left now) o)).0
leave_with c ms u now none e g = rw (update-none_found c u now ms e) g
leave_with c ms u now (some r) e g =
    let after = update (is_member_row c u) (set_left now) ms in
    record {
      one_row = λ v.
          rw (leave_rest-count c v after (some (set_left now r)))
            (rw (count-left c v u now ms) (g.one_row v));
      has_admin = leave_rest-has_admin c after (set_left now r) (λ plain h.
          member-leaves c u now ms r (g.one_row u) e plain
            (g.has_admin (left-active c u now ms h)));
    }

-- A group that has members keeps an admin, whoever leaves or is removed, when the transactions run
-- one after the other.
pub leave_conversation-IsGroup :
    (c : ℕ) (ms : List Membership) (u now : ℕ)
    → IsGroup c ms
    → IsGroup c (leave_conversation ms c u now).0
unfolding leave_conversation
leave_conversation-IsGroup c ms u now g =
    subst (λ o. IsGroup c (leave_rest (update (is_member_row c u) (set_left now) ms) c o).0)
      (sym (head?-map_all (set_left now) (select (is_member_row c u) ms)))
      (leave_with c ms u now (find (is_member_row c u) ms) refl g)
