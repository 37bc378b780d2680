-- ===== src/Groups/Concurrent.antt =====
-- Two admins who leave a group at the same time. The transaction of `leaveConversation`
-- (apps/api/src/db/conversations.ts) locks only the leaver's own row; under PostgreSQL's default
-- isolation a SELECT in it does not see what another open transaction has written.
use videochat.Prelude.{
  ℕ, ◌≡◌, refl, inl, inr, Bool, true, false, not, ◌&&◌, ◌||◌, Option, none, some, List, [], ◌∷◌,
  arith, any, update, Bool-cases, All, ◌==◌,
}
use videochat.Tables.{Membership, is_admin, is_member_row}
use videochat.Groups.Table.{is_active_admin, set_left, leave_conversation, leave_rest}

abbrev pub is_admin_row : ℕ → ℕ → Membership → Bool
is_admin_row c u m = is_member_row c u m && is_admin m.role

other-stays :
    (c u v now : ℕ) (ms : List Membership)
    → (u == v) ≡ false
    → any (is_admin_row c v) ms ≡ true
    → any (is_active_admin c) (update (is_member_row c u) (set_left now) ms) ≡ true
other-stays c u v now [] d h = cc
other-stays c u v now (m ∷ ms) d h = ground (arith, other-stays c u v now ms d)

both-gone :
    (c u v now now' : ℕ) (ms : List Membership)
    → All (λ m. (not (is_active_admin c m) || m.user_id == u || m.user_id == v) ≡ true) ms
    → any
        (is_active_admin c)
        (update (is_member_row c v) (set_left now') (update (is_member_row c u) (set_left now) ms))
      ≡ false
both-gone c u v now now' [] h = refl
both-gone c u v now now' (m ∷ ms) h = ground (arith, both-gone c u v now now' ms h.1, h.0)

admin-remains :
    (c : ℕ) (ms : List Membership) (o : Option Membership)
    → any (is_active_admin c) ms ≡ true
    → ((leave_rest ms c o).0 ≡ ms) × ((leave_rest ms c o).1.promoted_user_id ≡ none)
admin-remains c ms none h = (refl, refl)
admin-remains c ms (some r) h = elim (Bool-cases (is_admin r.role)) [
  | inl e ↦ rw e (rw h (refl, refl))
  | inr e ↦ rw e (refl, refl)
]

module _ (c u v now now' : ℕ) (ms : List Membership) (differ : (u == v) ≡ false)
    (u_admin : any (is_admin_row c u) ms ≡ true) (v_admin : any (is_admin_row c v) ms ≡ true)
    (only_they : All
      (λ m. (not (is_active_admin c m) || m.user_id == u || m.user_id == v) ≡ true)
      ms) where
  -- If a group's only two admins leave at the same time, each transaction, which does not see the
  -- other's write, promotes nobody and writes nothing but its own row; once both have committed the
  -- group has no admin.
  pub concurrent_leaves :
      ((leave_conversation ms c u now).0 ≡ update (is_member_row c u) (set_left now) ms)
      × ((leave_conversation ms c u now).1.promoted_user_id ≡ none)
      × ((leave_conversation ms c v now').0 ≡ update (is_member_row c v) (set_left now') ms)
      × ((leave_conversation ms c v now').1.promoted_user_id ≡ none)
      × (any (is_active_admin c) (
            update
              (is_member_row c v)
              (set_left now')
              (update (is_member_row c u) (set_left now) ms))
          ≡ false)
  unfolding leave_conversation
  concurrent_leaves =
      let differ_back : (v == u) ≡ false = ground (arith, differ) in
      let first =
        admin-remains c (update (is_member_row c u) (set_left now) ms) _
          (other-stays c u v now ms differ v_admin) in
      let second =
        admin-remains c (update (is_member_row c v) (set_left now') ms) _
          (other-stays c v u now' ms differ_back u_admin) in
      (first.0, first.1, second.0, second.1, both-gone c u v now now' ms only_they)
