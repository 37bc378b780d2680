-- ===== src/Groups/Notify.antt =====
-- Muting a conversation and whom `listNotifiableMembers` lists: apps/api/src/db/conversations.ts. The
-- notifications service adds muted members who are mentioned, by another query, and drops viewers
-- and blockers afterwards; neither is modelled here.
use videochat.Prelude.{
  sym, ℕ, ◌≡◌, refl, ap, ◌∙◌, inl, inr, Bool, true, false, not, ◌&&◌, ◌||◌, Option, none, some,
  List, [], ◌∷◌, any, select, map, update, set_where, returning, length, leb, ltb, ◌==◌, is_null,
  arith, Bool-cases,
}
use videochat.Tables.{Membership, is_member_row}

abbrev pub set_muted : Option ℕ → Membership → Membership
set_muted until m = record m { muted_until = until }

unfoldable pub set_conversation_muted : List Membership → ℕ → ℕ → Option ℕ → List Membership × Bool
set_conversation_muted memberships c u until = (
  update (is_member_row c u) (set_muted until) memberships,
  ltb 0 (length (returning (is_member_row c u) (set_muted until) memberships)),
)

-- `muted_until is null or muted_until <= now`.
abbrev pub hears : Option ℕ → ℕ → Bool
hears none now = true
hears (some until) now = leb until now

abbrev pub is_excluded : Option ℕ → ℕ → Bool
is_excluded none u = false
is_excluded (some x) u = u == x

abbrev pub is_notifiable : ℕ → Option ℕ → ℕ → Membership → Bool
is_notifiable c exclude now m =
    m.conversation_id == c
    && is_null m.left_at
    && hears m.muted_until now
    && not (is_excluded exclude m.user_id)

unfoldable pub list_notifiable_members : List Membership → ℕ → Option ℕ → ℕ → List ℕ
list_notifiable_members memberships c exclude now =
    map (λ m. m.user_id) (select (is_notifiable c exclude now) memberships)

unfoldable pub list_conversation_ids_for_user : List Membership → ℕ → List ℕ
list_conversation_ids_for_user memberships u =
    map (λ m. m.conversation_id) (select (λ m. m.user_id == u && is_null m.left_at) memberships)

unfoldable pub notifies : ℕ → List Membership → ℕ → Option ℕ → ℕ → Bool
notifies u ms c exclude now = any (λ v. v == u) (list_notifiable_members ms c exclude now)

-- Whether a row has this person notified.
abbrev notifies_row : ℕ → ℕ → Option ℕ → ℕ → Membership → Bool
notifies_row v c exclude now m = is_notifiable c exclude now m && m.user_id == v

notifies-any :
    (ms : List Membership) (c now v : ℕ) (exclude : Option ℕ)
    → notifies v ms c exclude now ≡ any (notifies_row v c exclude now) ms
unfolding notifies list_notifiable_members
notifies-any [] c now v exclude = refl
notifies-any (m ∷ ms) c now v exclude = elim (Bool-cases (is_notifiable c exclude now m)) [
  | inl e ↦ rw e (ap (λ t. m.user_id == v || t) (notifies-any ms c now v exclude))
  | inr e ↦ rw e (notifies-any ms c now v exclude)
]

muted_self :
    (m : Membership) (c u until now : ℕ) (excluded : Option ℕ)
    → notifies_row u c excluded now (set_where (is_member_row c u) (set_muted (some until)) m)
      ≡ (leb until now && not (is_excluded excluded u) && is_member_row c u m)
muted_self m c u until now none = ground arith
muted_self m c u until now (some x) = ground arith

muted_other :
    (m : Membership) (c u until now v : ℕ) (excluded : Option ℕ)
    → (v == u) ≡ false
    → notifies_row v c excluded now (set_where (is_member_row c u) (set_muted (some until)) m)
      ≡ notifies_row v c excluded now m
muted_other m c u until now v excluded d = elim (Bool-cases (is_member_row c u m)) [
  | inl e ↦ rw e (ground (arith, e, d))
  | inr e ↦ rw e refl
]

and_or : (a b x y : Bool) → (((a && b) && x) || ((a && b) && y)) ≡ ((a && b) && (x || y))
and_or true true x y = refl
and_or true false x y = refl
and_or false b x y = refl

self-any :
    (ms : List Membership) (c u until now : ℕ) (excluded : Option ℕ)
    → any (notifies_row u c excluded now) (update (is_member_row c u) (set_muted (some until)) ms)
      ≡ (leb until now && not (is_excluded excluded u) && any (is_member_row c u) ms)
self-any [] c u until now excluded =
    elim (Bool-cases (leb until now && not (is_excluded excluded u))) [
      | inl e ↦ rw e refl
      | inr e ↦ rw e refl
    ]
self-any (m ∷ ms) c u until now excluded = rw (muted_self m c u until now excluded) (
    rw (self-any ms c u until now excluded) (
      and_or (leb until now) (not (is_excluded excluded u)) (is_member_row c u m)
        (any (is_member_row c u) ms)))

other-any :
    (ms : List Membership) (c u until now v : ℕ) (excluded : Option ℕ)
    → (v == u) ≡ false
    → any (notifies_row v c excluded now) (update (is_member_row c u) (set_muted (some until)) ms)
      ≡ any (notifies_row v c excluded now) ms
other-any [] c u until now v excluded d = refl
other-any (m ∷ ms) c u until now v excluded d =
    rw (muted_other m c u until now v excluded d)
      (ap (λ t. notifies_row v c excluded now m || t) (other-any ms c u until now v excluded d))

-- After a member muted a conversation until some time, `listNotifiableMembers` lists that member, as a
-- current member who is not excluded, from that time on and not before; everybody else is listed
-- as before.
pub muted-notifies :
    (ms : List Membership) (c u until now : ℕ) (excluded : Option ℕ)
    → (notifies u (set_conversation_muted ms c u (some until)).0 c excluded now
        ≡ (leb until now && not (is_excluded excluded u) && any (is_member_row c u) ms))
      × ((v : ℕ)
          → (v == u) ≡ false
          → notifies v (set_conversation_muted ms c u (some until)).0 c excluded now
            ≡ notifies v ms c excluded now)
unfolding set_conversation_muted
muted-notifies ms c u until now excluded = (
  notifies-any _ c now u excluded ∙ self-any ms c u until now excluded,
  λ v d.
      notifies-any _ c now v excluded
      ∙ other-any ms c u until now v excluded d
      ∙ sym (notifies-any ms c now v excluded),
)
