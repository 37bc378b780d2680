-- ===== src/Calls/Signaling/Runs.antt =====
-- What it means that a handler of CallSignalingService is a sequence of statements over the `calls`
-- table, and rules to show it.
use mathlib.Core.List.{append-nil, append_assoc}
use videochat.Prelude.{
  rows_of, ℕ, ◌≡◌, refl, List, [], ◌∷◌, ◌++◌, arith, map, returning, select, head?, sym, ap, ◌∙◌,
}
use videochat.Calls.Table.{CallRow, CallEndReason, end_set, ringing, end_call, end_where}
use videochat.Calls.Statements.{Statement, exec, exec_all, won, won_all, end_ringing}
use videochat.Calls.Signaling.Protocol.{
  Effect, ended_listeners, Outcome, to_user, to_connection, to_socket, incoming_listeners,
}
use videochat.Calls.Signaling.Announce.{announce_ended, announce_if, announce_all}
use videochat.Calls.Signaling.Answer.{announced}

-- The calls whose ended-listeners (the call history) are run.
abbrev pub announced_rows : List Effect → List CallRow
announced_rows [] = []
announced_rows (ended_listeners call ∷ es) = call ∷ announced_rows es
announced_rows (_ ∷ es) = announced_rows es

-- The outcome of a handler is that of some statements, one after the other, and its ended-listeners
-- run for the rows that these win.
pub record Runs (calls : List CallRow) (outcome : Outcome) : Type 0 where
  pub statements : List Statement
  pub table : exec_all calls statements ≡ outcome.0
  pub wins : won_all calls statements ≡ announced_rows outcome.1

pub announced_rows-append :
    (xs ys : List Effect) → announced_rows (xs ++ ys) ≡ announced_rows xs ++ announced_rows ys
announced_rows-append [] ys = refl
announced_rows-append (ended_listeners call ∷ xs) ys =
    ap (λ (t : List CallRow). call ∷ t) (announced_rows-append xs ys)
announced_rows-append (to_user u e ∷ xs) ys = announced_rows-append xs ys
announced_rows-append (to_connection c e ∷ xs) ys = announced_rows-append xs ys
announced_rows-append (to_socket e ∷ xs) ys = announced_rows-append xs ys
announced_rows-append (incoming_listeners c s ∷ xs) ys = announced_rows-append xs ys

pub announced_rows-announce_ended :
    (call : CallRow) (reason : CallEndReason) (now : ℕ)
    → announced_rows (announce_ended (end_set reason now call)) ≡ end_set reason now call ∷ []
unfolding announce_ended
announced_rows-announce_ended call reason now = ground arith

pub announced_rows-announce_if :
    (reason : CallEndReason) (now : ℕ) (xs : List CallRow)
    → announced_rows (announce_if (head? (map (end_set reason now) xs)))
      ≡ rows_of (head? (map (end_set reason now) xs))
unfolding announce_if
announced_rows-announce_if reason now [] = refl
announced_rows-announce_if reason now (x ∷ xs) = announced_rows-announce_ended x reason now

pub announced_rows-announce_all :
    (reason : CallEndReason) (now : ℕ) (xs ys : List CallRow)
    → announced_rows (announce_all (map (end_set reason now) xs ++ ys))
      ≡ map (end_set reason now) xs ++ announced_rows (announce_all ys)
unfolding announce_all
announced_rows-announce_all reason now [] ys = refl
announced_rows-announce_all reason now (x ∷ xs) ys =
    rw announced_rows-append
      (rw announced_rows-announce_ended (rw (announced_rows-announce_all reason now xs ys)))

pub announced_rows-announce_ended_all :
    (reason : CallEndReason) (now : ℕ) (xs : List CallRow)
    → announced_rows (announce_all (map (end_set reason now) xs)) ≡ map (end_set reason now) xs
unfolding announce_all
announced_rows-announce_ended_all reason now xs =
    simp append-nil at (announced_rows-announce_all reason now xs [])

pub Runs-here :
    (calls : List CallRow) (es : List Effect) → announced_rows es ≡ [] → Runs calls (calls, es)
unfolding exec_all won_all
Runs-here calls es h = record { statements = []; table = refl; wins = sym h }

-- One statement that hands out no ended row, and then the rest.
pub Runs-next :
    (calls : List CallRow) (s : Statement) (outcome : Outcome)
    → won calls s ≡ []
    → Runs (exec calls s) outcome
    → Runs calls outcome
unfolding exec_all won_all
Runs-next calls s outcome quiet r = record {
  statements = s ∷ r.statements;
  table = r.table;
  wins = rw quiet r.wins;
}

-- One statement whose rows are all announced.
pub Runs-last :
    (calls : List CallRow) (s : Statement) (es : List Effect)
    → won calls s ≡ announced_rows es
    → Runs calls (exec calls s, es)
unfolding exec_all won_all
Runs-last calls s es w = record {
  statements = s ∷ [];
  table = refl;
  wins = append-nil (won calls s) ∙ w;
}

pub Runs-end_call :
    (calls : List CallRow) (id : ℕ) (reason : CallEndReason) (now : ℕ)
    → Runs calls (announced (end_call calls id reason (ringing ∷ []) now))
unfolding announced end_call exec won
Runs-end_call calls id reason now =
    Runs-last calls (end_ringing id reason now)
      (announce_if (head? (returning (end_where id (ringing ∷ [])) (end_set reason now) calls)))
      (sym (announced_rows-announce_if reason now (select (end_where id (ringing ∷ [])) calls)))

pub exec_all-append :
    (calls : List CallRow) (ss ts : List Statement)
    → exec_all calls (ss ++ ts) ≡ exec_all (exec_all calls ss) ts
unfolding exec_all
exec_all-append calls [] ts = refl
exec_all-append calls (s ∷ ss) ts = exec_all-append (exec calls s) ss ts

pub won_all-append :
    (calls : List CallRow) (ss ts : List Statement)
    → won_all calls (ss ++ ts) ≡ won_all calls ss ++ won_all (exec_all calls ss) ts
unfolding exec_all won_all
won_all-append calls [] ts = refl
won_all-append calls (s ∷ ss) ts = simp (won_all-append (exec calls s) ss ts, append_assoc)

pub Runs-append :
    (calls calls' calls'' : List CallRow) (xs ys : List Effect)
    → Runs calls (calls', xs)
    → Runs calls' (calls'', ys)
    → Runs calls (calls'', xs ++ ys)
Runs-append calls calls' calls'' xs ys r q = record {
  statements = r.statements ++ q.statements;
  table = exec_all-append calls r.statements q.statements ∙ rw r.table q.table;
  wins =
      won_all-append calls r.statements q.statements
      ∙ rw (r.table, r.wins, q.wins, announced_rows-append);
}
