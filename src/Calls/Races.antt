-- ===== src/Calls/Races.antt =====
-- Who wins a race on a call: over every sequence of statements of apps/api/src/db/calls.ts, so
-- over every interleaving of handlers on every API node.
use videochat.Calls.Statements.{
  Statement, insert, accept, end_ringing, end_active, cancel_gone, caller_gone, callee_gone,
  resume_caller, resume_callee, expire_ringing, expire_active, exec, won, exec_all, won_all,
}
use videochat.Calls.Table.{
  CallStatus, ringing, active, ended, CallEndReason, missed, cancelled, connection_lost, status_eq,
  CallRow, NewCall, insert_call, accept_where, accept_set, accept_call, end_set, end_where,
  end_call, gone_ringing, gone_caller, gone_callee, mark_caller_gone, mark_callee_gone,
  resume_caller_where, resume_callee_where, resume_caller_set, resume_callee_set, missed_where,
  lost_where,
}
use videochat.Prelude.{
  ◌==◌, length, head?, rows_of, any, update, returning, count, count-append, count-update, ℕ, ◌+◌,
  ◌≤◌, ◌≡◌, refl, Bool, true, false, ◌&&◌, List, [], ◌∷◌, arith,
}

abbrev pub has_id : ℕ → CallRow → Bool
has_id id r = r.id == id

-- At most one row has any given id: the primary key.
abbrev pub HasUniqueIds : List CallRow → Type 0
HasUniqueIds calls = (id : ℕ) → count (has_id id) calls ≤ 1

abbrev pub is_ended : ℕ → CallRow → Bool
is_ended id r = r.id == id && status_eq r.status ended

rows_of-head? : (xs : List CallRow) → length xs ≤ 1 → rows_of (head? xs) ≡ xs
rows_of-head? [] h = refl
rows_of-head? (x ∷ []) h = refl
rows_of-head? (x ∷ y ∷ xs) h = absurd (omega arith)

module _ (p q : CallRow → Bool) (f : CallRow → CallRow) where
  length-returning-le-count :
      (xs : List CallRow)
      → ((x : CallRow) → p x ≡ true → q x ≡ true)
      → length (returning p f xs) ≤ count q xs
  length-returning-le-count [] h = omega arith
  length-returning-le-count (x ∷ xs) h = ground (arith, h x, length-returning-le-count xs h)

ended-le-id : (k : ℕ) (xs : List CallRow) → count (is_ended k) xs ≤ count (has_id k) xs
ended-le-id k [] = omega arith
ended-le-id k (x ∷ xs) = ground (arith, ended-le-id k xs)

-- A statement that ends the calls of one test, whose rows are handed out.
module _ (p : CallRow → Bool) (f : CallRow → CallRow) (id : ℕ) where
  ending-count :
      (xs : List CallRow)
      → ((x : CallRow) → p x ≡ true → is_ended id x ≡ false)
      → ((x : CallRow) → is_ended id (f x) ≡ has_id id (f x))
      → count (has_id id) (returning p f xs) + count (is_ended id) xs
        ≡ count (is_ended id) (update p f xs)
  ending-count [] open_ ended_ = omega arith
  ending-count (x ∷ xs) open_ ended_ =
      ground (arith, open_ x, ended_ x, ending-count xs open_ ended_)

end_call-count :
    (calls : List CallRow) (id k : ℕ) (reason : CallEndReason) (from : CallStatus) (now : ℕ)
    → status_eq ended from ≡ false
    → HasUniqueIds calls
    → count (has_id k) (rows_of (end_call calls id reason (from ∷ []) now).1)
        + count (is_ended k) calls
      ≡ count (is_ended k) (end_call calls id reason (from ∷ []) now).0
unfolding end_call
end_call-count calls id k reason from now h u =
    rw
      (rows_of-head? (returning (end_where id (from ∷ [])) (end_set reason now) calls) (
        omega (
          arith,
          length-returning-le-count (end_where id (from ∷ [])) (has_id id) (end_set reason now)
              calls (λ x e. ground arith),
          u id,
        )))
      (ending-count (end_where id (from ∷ [])) (end_set reason now) k calls (λ x e. ground arith)
        (λ x. ground arith))

any-count :
    (id : ℕ) (calls : List CallRow) → any (has_id id) calls ≡ false → count (has_id id) calls ≡ 0
any-count id [] h = refl
any-count id (x ∷ xs) h = ground (arith, any-count id xs)

-- What a statement hands out as ended is exactly what it has moved into the ended state.
won-count :
    (calls : List CallRow) (s : Statement) (k : ℕ)
    → HasUniqueIds calls
    → count (has_id k) (won calls s) + count (is_ended k) calls ≡ count (is_ended k) (exec calls s)
unfolding won exec
won-count calls (end_ringing id reason now) k u =
    end_call-count calls id k reason ringing now refl u
won-count calls (end_active id reason now) k u = end_call-count calls id k reason active now refl u
won-count calls (cancel_gone connection now) k u =
    ending-count (gone_ringing connection) (end_set cancelled now) k calls (λ x e. ground arith)
      (λ x. ground arith)
won-count calls (expire_ringing cutoff now) k u =
    ending-count (missed_where cutoff) (end_set missed now) k calls (λ x e. ground arith)
      (λ x. ground arith)
won-count calls (expire_active cutoff now) k u =
    ending-count (lost_where cutoff) (end_set connection_lost now) k calls (λ x e. ground arith)
      (λ x. ground arith)
won-count calls (insert c now) k u = unfold insert_call in ground arith
won-count calls (accept id callee connection now) k u =
    unfold accept_call in
    omega (
      arith,
      count-update (is_ended k) (accept_where id callee) (accept_set connection now) calls
          (λ x e. ground arith),
    )
won-count calls (caller_gone connection now) k u = omega (
  arith,
  count-update (is_ended k) (gone_caller connection) (mark_caller_gone now) calls (λ x e. refl),
)
won-count calls (callee_gone connection now) k u = omega (
  arith,
  count-update (is_ended k) (gone_callee connection) (mark_callee_gone now) calls (λ x e. refl),
)
won-count calls (resume_caller id user connection) k u = omega (
  arith,
  count-update (is_ended k) (resume_caller_where id user) (resume_caller_set connection) calls
      (λ x e. refl),
)
won-count calls (resume_callee id user connection) k u = omega (
  arith,
  count-update (is_ended k) (resume_callee_where id user) (resume_callee_set connection) calls
      (λ x e. refl),
)

insert-HasUniqueIds :
    (calls : List CallRow) (c : NewCall) (now : ℕ)
    → HasUniqueIds calls
    → HasUniqueIds (insert_call calls c now).0
unfolding insert_call
insert-HasUniqueIds calls c now u k = ground (arith, any-count c.id calls, u k)

id-update :
    (p : CallRow → Bool) (f : CallRow → CallRow) (calls : List CallRow) (k : ℕ)
    → ((x : CallRow) → (f x).id ≡ x.id)
    → count (has_id k) (update p f calls) ≡ count (has_id k) calls
id-update p f calls k same = count-update (has_id k) p f calls (λ x e. rw (same x))

-- No statement makes or loses a row but an insert under a new id.
pub exec-HasUniqueIds :
    (calls : List CallRow) (s : Statement) → HasUniqueIds calls → HasUniqueIds (exec calls s)
unfolding exec accept_call end_call
exec-HasUniqueIds calls (insert c now) u k = insert-HasUniqueIds calls c now u k
exec-HasUniqueIds calls (accept id callee connection now) u k =
    rw (id-update _ (accept_set connection now) calls k (λ x. refl)) (u k)
exec-HasUniqueIds calls (end_ringing id reason now) u k =
    rw (id-update _ (end_set reason now) calls k (λ x. refl)) (u k)
exec-HasUniqueIds calls (end_active id reason now) u k =
    rw (id-update _ (end_set reason now) calls k (λ x. refl)) (u k)
exec-HasUniqueIds calls (cancel_gone connection now) u k =
    rw (id-update _ (end_set cancelled now) calls k (λ x. refl)) (u k)
exec-HasUniqueIds calls (caller_gone connection now) u k =
    rw (id-update _ (mark_caller_gone now) calls k (λ x. refl)) (u k)
exec-HasUniqueIds calls (callee_gone connection now) u k =
    rw (id-update _ (mark_callee_gone now) calls k (λ x. refl)) (u k)
exec-HasUniqueIds calls (resume_caller id user connection) u k =
    rw (id-update _ (resume_caller_set connection) calls k (λ x. refl)) (u k)
exec-HasUniqueIds calls (resume_callee id user connection) u k =
    rw (id-update _ (resume_callee_set connection) calls k (λ x. refl)) (u k)
exec-HasUniqueIds calls (expire_ringing cutoff now) u k =
    rw (id-update _ (end_set missed now) calls k (λ x. refl)) (u k)
exec-HasUniqueIds calls (expire_active cutoff now) u k =
    rw (id-update _ (end_set connection_lost now) calls k (λ x. refl)) (u k)

pub exec_all-HasUniqueIds :
    (calls : List CallRow) (ss : List Statement)
    → HasUniqueIds calls
    → HasUniqueIds (exec_all calls ss)
unfolding exec_all
exec_all-HasUniqueIds calls [] u = u
exec_all-HasUniqueIds calls (s ∷ ss) u =
    exec_all-HasUniqueIds (exec calls s) ss (exec-HasUniqueIds calls s u)

won_all-count :
    (calls : List CallRow) (ss : List Statement) (k : ℕ)
    → HasUniqueIds calls
    → count (has_id k) (won_all calls ss) + count (is_ended k) calls
      ≡ count (is_ended k) (exec_all calls ss)
unfolding won_all exec_all
won_all-count calls [] k u = omega arith
won_all-count calls (s ∷ ss) k u = omega (
  arith,
  count-append (has_id k) (won calls s) (won_all (exec calls s) ss),
  won-count calls s k u,
  won_all-count (exec calls s) ss k (exec-HasUniqueIds calls s u),
)

-- From the empty table, over any sequence of statements, a call is handed out as ended exactly as
-- often as it stands in the table as ended, and that is at most once: of all the hang-ups, sweeps
-- and disconnects that race, one wins if the call ends, and none if it does not.
pub ended_once :
    (ss : List Statement) (k : ℕ)
    → (count (has_id k) (won_all [] ss) ≡ count (is_ended k) (exec_all [] ss))
      × (count (has_id k) (won_all [] ss) ≤ 1)
ended_once ss k =
    let once : count (has_id k) (exec_all [] ss) ≤ 1 =
      exec_all-HasUniqueIds [] ss (λ j. omega arith) k in
    let same : count (has_id k) (won_all [] ss) + 0 ≡ count (is_ended k) (exec_all [] ss) =
      won_all-count [] ss k (λ j. omega arith) in
    (omega arith, omega (arith, ended-le-id k (exec_all [] ss)))
