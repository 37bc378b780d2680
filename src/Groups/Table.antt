-- ===== src/Groups/Table.antt =====
-- Members of group conversations: the membership statements of apps/api/src/db/conversations.ts
-- and `lockLiveUsers` of apps/api/src/db/live-users.ts.
use videochat.Prelude.{
  ℕ, Bool, true, false, not, ◌&&◌, Option, none, some, List, [], ◌∷◌, any, select, update,
  returning, head?, order_by, length, ltb, ◌==◌, if◌then◌else◌, is_null,
}
use videochat.Tables.{User, Membership, member, admin, is_admin, is_member_row}

-- A current member of the conversation.
abbrev pub is_active : ℕ → Membership → Bool
is_active c m = m.conversation_id == c && is_null m.left_at

abbrev pub is_active_admin : ℕ → Membership → Bool
is_active_admin c m = m.conversation_id == c && is_admin m.role && is_null m.left_at

-- The primary key of the table.
abbrev pub is_row_of : ℕ → ℕ → Membership → Bool
is_row_of c u m = m.conversation_id == c && m.user_id == u

abbrev pub set_left : ℕ → Membership → Membership
set_left now m = record m { left_at = some now }

abbrev pub set_admin : Membership → Membership
set_admin m = record m { role = admin }

-- `ORDER BY joined_at ASC`.
abbrev pub joined_before : Membership → Membership → Bool
joined_before a b = ltb a.joined_at b.joined_at

pub record LeaveResult : Type 0 where
  pub left : Bool
  pub promoted_user_id : Option ℕ

unfoldable pub count_active_members : List Membership → ℕ → ℕ
count_active_members memberships c = length (select (is_active c) memberships)

unfoldable pub get_membership : List Membership → ℕ → ℕ → Option Membership
get_membership memberships c u = head? (select (is_member_row c u) memberships)

unfoldable pub was_conversation_member : List Membership → ℕ → ℕ → Bool
was_conversation_member memberships c u = any (is_row_of c u) memberships

unfoldable pub remove_group_member : List Membership → ℕ → ℕ → ℕ → List Membership × Bool
remove_group_member memberships c u now = (
  update (is_member_row c u) (set_left now) memberships,
  not (is_null (head? (returning (is_member_row c u) (set_left now) memberships))),
)

-- The last statement: the oldest remaining member becomes an admin, if there is one.
abbrev pub promote : List Membership → ℕ → Option Membership → List Membership × LeaveResult
promote memberships c none = (memberships, record { left = true; promoted_user_id = none })
promote memberships c (some oldest) = (
  update (is_row_of c oldest.user_id) set_admin memberships,
  record { left = true; promoted_user_id = some oldest.user_id },
)

-- After the leaver's own row was updated.
abbrev pub leave_rest : List Membership → ℕ → Option Membership → List Membership × LeaveResult
leave_rest memberships c none = (memberships, record { left = false; promoted_user_id = none })
leave_rest memberships c (some left_row) =
    let promoted =
      promote memberships c (head? (order_by joined_before (select (is_active c) memberships))) in
    if not (is_admin left_row.role)
    then (memberships, record { left = true; promoted_user_id = none })
    else if any (is_active_admin c) memberships
    then (memberships, record { left = true; promoted_user_id = none })
    else promoted

-- The transaction, run on its own.
unfoldable pub leave_conversation : List Membership → ℕ → ℕ → ℕ → List Membership × LeaveResult
leave_conversation memberships c u now =
    leave_rest (update (is_member_row c u) (set_left now) memberships) c
      (head? (returning (is_member_row c u) (set_left now) memberships))

-- Every one of these users exists and is not deleted.
unfoldable pub lock_live_users : List User → List ℕ → Bool
lock_live_users users [] = true
lock_live_users users (id ∷ ids) =
    any (λ u. u.id == id && is_null u.deleted_at) users && lock_live_users users ids

abbrev pub rejoin : ℕ → Membership → Membership
rejoin now m = record m { left_at = none; role = member; joined_at = now }

abbrev pub new_membership : ℕ → ℕ → ℕ → Membership
new_membership c u now = record {
  conversation_id = c;
  user_id = u;
  role = member;
  last_read_seq = 0;
  muted_until = none;
  joined_at = now;
  left_at = none;
}

-- `INSERT … ON CONFLICT (conversation_id, user_id) DO UPDATE`, one row of it.
abbrev pub upsert_member : ℕ → ℕ → List Membership → ℕ → List Membership
upsert_member c now memberships u =
    if any (is_row_of c u) memberships
    then update (is_row_of c u) (rejoin now) memberships
    else new_membership c u now ∷ memberships

abbrev pub upsert_members : ℕ → ℕ → List Membership → List ℕ → List Membership
upsert_members c now memberships [] = memberships
upsert_members c now memberships (u ∷ us) =
    upsert_members c now (upsert_member c now memberships u) us

pub data AddError : Type 0 where
  user_unavailable row_affected_twice : AddError

pub data AddResult : Type 0 where
  add_failed : AddError → AddResult
  added : List ℕ → AddResult

-- One statement cannot update a row twice.
abbrev pub has_duplicate : List ℕ → Bool
has_duplicate [] = false
has_duplicate (u ∷ us) = if any (λ v. v == u) us then true else has_duplicate us

abbrev pub insert_members :
    List Membership → List User → ℕ → ℕ → List ℕ → List Membership × AddResult
insert_members memberships users c now [] = (memberships, added [])
insert_members memberships users c now (u ∷ us) =
    if not (lock_live_users users (u ∷ us))
    then (memberships, add_failed user_unavailable)
    else if has_duplicate (u ∷ us)
    then (memberships, add_failed row_affected_twice)
    else (upsert_members c now memberships (u ∷ us), added (u ∷ us))

unfoldable pub add_group_members :
    List Membership → List User → ℕ → List ℕ → ℕ → List Membership × AddResult
add_group_members memberships users c user_ids now =
    insert_members memberships users c now
      (select (λ u. not (any (is_member_row c u) memberships)) user_ids)
