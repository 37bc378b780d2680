-- ===== src/Groups/Examples.antt =====
-- Groups at concrete inputs: admins 1 and 2 and member 3 of group 30.
use videochat.Prelude.{
  some, leb, not, ◌&&◌, ◌==◌, ℕ, ◌≡◌, refl, true, false, none, List, [], ◌∷◌, arith, All, any,
  update, ◌==◌, ◌&&◌, not,
}
use videochat.Tables.{User, Membership, MemberRole, admin, member, is_member_row}
use videochat.Groups.Table.{
  leave_conversation, is_active_admin, set_left, add_group_members, added, lock_live_users,
}
use videochat.Groups.Leaving.{IsGroup, leave_conversation-IsGroup}
use videochat.Groups.Concurrent.{concurrent_leaves}
use videochat.Groups.Notify.{notifies, set_conversation_muted, is_excluded, muted-notifies}
use videochat.Groups.Adding.{add_group_members-joins}

abbrev seat : ℕ → MemberRole → Membership
seat user role = record {
  conversation_id = 30;
  user_id = user;
  role = role;
  last_read_seq = 0;
  muted_until = none;
  joined_at = user;
  left_at = none;
}

abbrev seats : List Membership
seats = seat 1 admin ∷ seat 2 admin ∷ seat 3 member ∷ []

abbrev users : List User
users =
    record { id = 3; display_name = "carl"; avatar_key = none; deleted_at = none }
    ∷ record { id = 4; display_name = "dora"; avatar_key = none; deleted_at = none }
    ∷ []

seats-IsGroup : IsGroup 30 seats
seats-IsGroup = record { one_row = λ u. ground arith; has_admin = λ h. refl }

leave_example : IsGroup 30 (leave_conversation seats 30 1 50).0
leave_example = leave_conversation-IsGroup 30 seats 1 50 seats-IsGroup

concurrent_leaves_example :
    ((leave_conversation seats 30 1 50).0 ≡ update (is_member_row 30 1) (set_left 50) seats)
    × ((leave_conversation seats 30 1 50).1.promoted_user_id ≡ none)
    × ((leave_conversation seats 30 2 51).0 ≡ update (is_member_row 30 2) (set_left 51) seats)
    × ((leave_conversation seats 30 2 51).1.promoted_user_id ≡ none)
    × (any (is_active_admin 30) (
          update
            (is_member_row 30 2)
            (set_left 51)
            (update (is_member_row 30 1) (set_left 50) seats))
        ≡ false)
concurrent_leaves_example =
    concurrent_leaves 30 1 2 50 51 seats refl refl refl (refl, (refl, (refl, tt)))

added-both : (add_group_members seats users 30 (3 ∷ 4 ∷ []) 60).1 ≡ added (4 ∷ [])
unfolding add_group_members lock_live_users
added-both = refl

add_example :
    All
      (λ u. any (is_member_row 30 u) (add_group_members seats users 30 (3 ∷ 4 ∷ []) 60).0 ≡ true)
      (3 ∷ 4 ∷ [])
    × ((v : ℕ)
        → any (is_member_row 30 v) seats ≡ true
        → any (is_member_row 30 v) (add_group_members seats users 30 (3 ∷ 4 ∷ []) 60).0 ≡ true)
    × ((v : ℕ)
        → any (λ u. u == v) (4 ∷ [])
          ≡ (any (λ u. u == v) (3 ∷ 4 ∷ []) && not (any (is_member_row 30 v) seats)))
add_example = add_group_members-joins seats users 30 60 (3 ∷ 4 ∷ []) (4 ∷ []) added-both

muted_example :
    (notifies 3 (set_conversation_muted seats 30 3 (some 90)).0 30 (some 1) 80
      ≡ (leb 90 80 && not (is_excluded (some 1) 3) && any (is_member_row 30 3) seats))
    × ((v : ℕ)
        → (v == 3) ≡ false
        → notifies v (set_conversation_muted seats 30 3 (some 90)).0 30 (some 1) 80
          ≡ notifies v seats 30 (some 1) 80)
muted_example = muted-notifies seats 30 3 90 80 (some 1)
