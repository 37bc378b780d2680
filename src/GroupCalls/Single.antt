-- ===== src/GroupCalls/Single.antt =====
-- The unique indexes of `group_calls` and the life of a call, over every run of the statements of
-- apps/api/src/db/group-calls.ts.
use videochat.GroupCalls.Table.{
  GroupCallRow, is_running, is_running_in, get_group_call, insert_group_call, count_where,
  count_set, set_group_call_participants, gone_where, gone_set, end_group_calls, Statement, inserts,
  counts, ends, exec, exec_all,
}
use videochat.Prelude.{
  ◌==◌, Bool-cases, any, set_where, update, count, find-update, ℕ, ◌≤◌, ◌≡◌, refl, ◌∙◌, inl, inr,
  Bool, true, false, ◌||◌, none, some, List, [], ◌∷◌, arith,
}

abbrev pub has_id : ℕ → GroupCallRow → Bool
has_id id r = r.id == id

-- The primary key, and the unique index on the running calls.
pub record IsSingle (calls : List GroupCallRow) : Type 0 where
  pub unique : (id : ℕ) → count (has_id id) calls ≤ 1
  pub single : (conversation : ℕ) → count (is_running_in conversation) calls ≤ 1

abbrev pub clashes : ℕ → ℕ → GroupCallRow → Bool
clashes id conversation r = r.id == id || is_running_in conversation r

no_clash :
    (id conversation : ℕ) (calls : List GroupCallRow)
    → any (clashes id conversation) calls ≡ false
    → (count (has_id id) calls ≡ 0) × (count (is_running_in conversation) calls ≡ 0)
no_clash id conversation [] h = (refl, refl)
no_clash id conversation (r ∷ calls) h =
    let (a, b) = no_clash id conversation calls (ground (arith, h)) in
    (ground (arith, h, a), ground (arith, h, b))

-- An update that changes no id and no conversation and starts nothing.
module _ (p : GroupCallRow → Bool) (f : GroupCallRow → GroupCallRow)
    (same_id : (r : GroupCallRow) → (f r).id ≡ r.id)
    (same_conversation : (r : GroupCallRow) → (f r).conversation_id ≡ r.conversation_id)
    (starts_none : (r : GroupCallRow) → is_running (f r) ≡ true → is_running r ≡ true) where
  ids-update :
      (id : ℕ) (calls : List GroupCallRow)
      → count (has_id id) (update p f calls) ≡ count (has_id id) calls
  ids-update id [] = refl
  ids-update id (r ∷ calls) = ground (arith, same_id r, ids-update id calls)

  running-update :
      (conversation : ℕ) (calls : List GroupCallRow)
      → count (is_running_in conversation) (update p f calls)
        ≤ count (is_running_in conversation) calls
  running-update conversation [] = omega arith
  running-update conversation (r ∷ calls) =
      ground (arith, same_conversation r, starts_none r, running-update conversation calls)

  IsSingle-update : (calls : List GroupCallRow) → IsSingle calls → IsSingle (update p f calls)
  IsSingle-update calls s = record {
    unique = λ id. omega (arith, s.unique id, ids-update id calls);
    single = λ c. omega (arith, s.single c, running-update c calls);
  }

pub IsSingle-insert :
    (calls : List GroupCallRow) (id conversation user now : ℕ)
    → IsSingle calls
    → IsSingle (insert_group_call calls id conversation user now).0
unfolding insert_group_call
IsSingle-insert calls id conversation user now s =
    elim (Bool-cases (any (clashes id conversation) calls)) [
      | inl e ↦ rw e s
      | inr e ↦
          let (a, b) = no_clash id conversation calls e in
          rw e (record {
            unique = λ k. ground (arith, s.unique k, a);
            single = λ c. ground (arith, s.single c, b);
          })
    ]

pub exec-IsSingle :
    (calls : List GroupCallRow) (s : Statement) → IsSingle calls → IsSingle (exec calls s)
unfolding exec set_group_call_participants end_group_calls
exec-IsSingle calls (inserts id conversation user now) h =
    IsSingle-insert calls id conversation user now h
exec-IsSingle calls (counts id n) h =
    IsSingle-update (count_where id n) (count_set n) (λ r. refl) (λ r. refl) (λ r e. e) calls h
exec-IsSingle calls (ends ids now) h =
    IsSingle-update (gone_where ids) (gone_set now) (λ r. refl) (λ r. refl) (λ r e. cc) calls h

pub exec_all-IsSingle :
    (calls : List GroupCallRow) (ss : List Statement)
    → IsSingle calls
    → IsSingle (exec_all calls ss)
unfolding exec_all
exec_all-IsSingle calls [] h = h
exec_all-IsSingle calls (s ∷ ss) h = exec_all-IsSingle (exec calls s) ss (exec-IsSingle calls s h)

-- How a call may change: it stays in its conversation, and never runs again.
pub record Follows (r s : GroupCallRow) : Type 0 where
  pub same_id : s.id ≡ r.id
  pub same_conversation : s.conversation_id ≡ r.conversation_id
  pub ended_stays : is_running s ≡ true → is_running r ≡ true

Follows-trans : (r s t : GroupCallRow) → Follows r s → Follows s t → Follows r t
Follows-trans r s t a b = record {
  same_id = b.same_id ∙ a.same_id;
  same_conversation = b.same_conversation ∙ a.same_conversation;
  ended_stays = λ e. a.ended_stays (b.ended_stays e);
}

abbrev pub Keeps : List GroupCallRow → List GroupCallRow → Type 0
Keeps calls after =
    (id : ℕ) (r : GroupCallRow)
    → get_group_call calls id ≡ some r
    → (s : GroupCallRow) × (get_group_call after id ≡ some s) × Follows r s

Keeps-update :
    (p : GroupCallRow → Bool) (f : GroupCallRow → GroupCallRow) (calls : List GroupCallRow)
    → ((r : GroupCallRow) → (f r).id ≡ r.id)
    → ((r : GroupCallRow) → (f r).conversation_id ≡ r.conversation_id)
    → ((r : GroupCallRow) → is_running (f r) ≡ true → is_running r ≡ true)
    → Keeps calls (update p f calls)
unfolding get_group_call
Keeps-update p f calls i c run id r e = (
  set_where p f r,
  rw (find-update (has_id id) p f calls (λ x. rw (i x) refl)) (rw e refl),
  record {
    same_id = ground (arith, i r);
    same_conversation = ground (arith, c r);
    ended_stays = λ h. ground (arith, run r, h);
  },
)

absent :
    (k id conversation : ℕ) (calls : List GroupCallRow)
    → (id == k) ≡ true
    → any (clashes id conversation) calls ≡ false
    → get_group_call calls k ≡ none
unfolding get_group_call
absent k id conversation [] same h = refl
absent k id conversation (r ∷ calls) same h =
    ground (arith, absent k id conversation calls same, h, same)

Keeps-insert :
    (calls : List GroupCallRow) (id conversation user now : ℕ)
    → Keeps calls (insert_group_call calls id conversation user now).0
unfolding insert_group_call get_group_call
Keeps-insert calls id conversation user now k r e =
    let follows : Follows r r = record {
      same_id = refl;
      same_conversation = refl;
      ended_stays = λ h. h;
    } in
    elim (Bool-cases (any (clashes id conversation) calls)) [
      | inl c ↦ rw c (r, e, follows)
      | inr c ↦ rw c (elim (Bool-cases (id == k)) [
        | inl same ↦ absurd (ground (arith, absent k id conversation calls same c, e))
        | inr other ↦ rw other (r, e, follows)
      ])
    ]

exec-Keeps : (calls : List GroupCallRow) (s : Statement) → Keeps calls (exec calls s)
unfolding exec set_group_call_participants end_group_calls
exec-Keeps calls (inserts id conversation user now) = Keeps-insert calls id conversation user now
exec-Keeps calls (counts id n) =
    Keeps-update (count_where id n) (count_set n) calls (λ r. refl) (λ r. refl) (λ r e. e)
exec-Keeps calls (ends ids now) =
    Keeps-update (gone_where ids) (gone_set now) calls (λ r. refl) (λ r. refl) (λ r e. cc)

pub exec_all-Keeps :
    (calls : List GroupCallRow) (ss : List Statement) → Keeps calls (exec_all calls ss)
unfolding exec_all
exec_all-Keeps calls [] id r e =
    (r, e, record { same_id = refl; same_conversation = refl; ended_stays = λ h. h })
exec_all-Keeps calls (s ∷ ss) id r e =
    let (m, em, fm) = exec-Keeps calls s id r e in
    let (t, et, ft) = exec_all-Keeps (exec calls s) ss id m em in (t, et, Follows-trans r m t fm ft)
