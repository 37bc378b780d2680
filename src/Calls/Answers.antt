-- ===== src/Calls/Answers.antt =====
-- Statements that name one call, read through the row of that call, and who answers it.
use mathlib.Core.Option
use videochat.Prelude.{
  ℕ, ◌≤◌, ◌≡◌, ◌≢◌, refl, Bool, true, not, ◌&&◌, Option, none, some, List, [], ◌∷◌, arith, count,
  select, head?, returning, ◌==◌, if◌then◌else◌, set_where, find-update, find-holds, sym, ◌∙◌,
}
use videochat.Calls.Table.{
  CallRow, ringing, active, status_eq, get_call, accept_call, accept_where, accept_set,
}
use videochat.Calls.Statements.{Statement, accept, exec, exec_all}
use videochat.Calls.Lifecycle.{exec_all-Evolves}
use videochat.Calls.Races.{has_id, HasUniqueIds, exec-HasUniqueIds, exec_all-HasUniqueIds}

-- The row, if it passes a test.
abbrev keep : (CallRow → Bool) → Option CallRow → Option CallRow
keep p none = none
keep p (some r) = if p r then some r else none

abbrev set_found : (CallRow → CallRow) → Option CallRow → Option CallRow
set_found f none = none
set_found f (some r) = some (f r)

select_by_id :
    (k : ℕ) (w p : CallRow → Bool) (calls : List CallRow)
    → ((r : CallRow) → w r ≡ (has_id k r && p r))
    → count (has_id k) calls ≡ 0
    → select w calls ≡ []
select_by_id k w p [] same u = refl
select_by_id k w p (r ∷ calls) same u = ground (arith, same r, select_by_id k w p calls same)

find_by_id :
    (k : ℕ) (w p : CallRow → Bool) (f : CallRow → CallRow) (calls : List CallRow)
    → ((r : CallRow) → w r ≡ (has_id k r && p r))
    → count (has_id k) calls ≤ 1
    → head? (returning w f calls) ≡ set_found f (keep p (get_call calls k))
unfolding get_call
find_by_id k w p f [] same u = refl
find_by_id k w p f (r ∷ calls) same u =
    ground (arith, same r, select_by_id k w p calls same, find_by_id k w p f calls same)

abbrev can_answer : ℕ → CallRow → Bool
can_answer callee r = r.callee_id == callee && status_eq r.status ringing && not r.silenced

accept_call_lem :
    (calls : List CallRow) (id callee connection now : ℕ)
    → HasUniqueIds calls
    → (accept_call calls id callee connection now).1
      ≡ set_found (accept_set connection now) (keep (can_answer callee) (get_call calls id))
unfolding accept_call
accept_call_lem calls id callee connection now u =
    find_by_id id (accept_where id callee) (can_answer callee) (accept_set connection now) calls
      (λ r. ground arith) (u id)

-- A call that is past ringing is never answered again, whatever runs in between.
not_ringing-accept :
    (calls : List CallRow) (ss : List Statement) (id : ℕ) (r : CallRow) (callee connection now : ℕ)
    → HasUniqueIds calls
    → get_call calls id ≡ some r
    → r.status ≢ ringing
    → (accept_call (exec_all calls ss) id callee connection now).1 ≡ none
not_ringing-accept calls ss id r callee connection now u e open_ =
    let (s, es, v) = exec_all-Evolves calls ss id r e in
    rw
      (accept_call_lem (exec_all calls ss) id callee connection now
        (exec_all-HasUniqueIds calls ss u))
      (rw es (ground (arith, v)))

accepted_row :
    (id callee connection now : ℕ) (r : CallRow) (o : Option CallRow)
    → ((r₀ : CallRow) → o ≡ some r₀ → has_id id r₀ ≡ true)
    → set_found (accept_set connection now) (keep (can_answer callee) o) ≡ some r
    → (Option.map (set_where (accept_where id callee) (accept_set connection now)) o ≡ some r)
      × (r.status ≡ active)
accepted_row id callee connection now r none named h = cc
accepted_row id callee connection now r (some r₀) named h = ground (arith, named r₀ refl)

accepted-get_call :
    (calls : List CallRow) (id callee connection now : ℕ) (r : CallRow)
    → HasUniqueIds calls
    → (accept_call calls id callee connection now).1 ≡ some r
    → (get_call (accept_call calls id callee connection now).0 id ≡ some r) × (r.status ≡ active)
unfolding accept_call get_call
accepted-get_call calls id callee connection now r u won =
    rw
      (find-update (has_id id) (accept_where id callee) (accept_set connection now) calls
        (λ x. refl))
      (accepted_row id callee connection now r (get_call calls id)
        (λ r₀ e. find-holds (has_id id) calls r₀ e)
        (sym (accept_call_lem calls id callee connection now u) ∙ won))

-- When a device has answered a call, no later attempt to answer it returns a row, by any user from
-- any connection, whatever statements run in between.
pub answered_once :
    (calls : List CallRow) (id callee connection now : ℕ) (r : CallRow) (ss : List Statement)
    (callee' connection' now' : ℕ)
    → HasUniqueIds calls
    → (accept_call calls id callee connection now).1 ≡ some r
    → (accept_call
        (exec_all (accept_call calls id callee connection now).0 ss)
        id
        callee'
        connection'
        now').1
      ≡ none
unfolding exec
answered_once calls id callee connection now r ss callee' connection' now' u won =
    let (there, now_active) = accepted-get_call calls id callee connection now r u won in
    not_ringing-accept (exec calls (accept id callee connection now)) ss id r callee' connection'
      now' (exec-HasUniqueIds calls (accept id callee connection now) u) there (λ e. cc)
