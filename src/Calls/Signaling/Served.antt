-- ===== src/Calls/Signaling/Served.antt =====
-- The call service over any sequence of requests, with the calls that are ended and announced apart
-- from those that are ended and dropped, when a later UPDATE of the same request fails.
use mathlib.Core.List.{append-nil}
use videochat.Calls.Races.{has_id, is_ended, ended_once}
use videochat.Calls.Statements.{
  Statement, cancel_gone, caller_gone, expire_ringing, exec, won, exec_all, won_all,
}
use videochat.Calls.Signaling.Announcements.{Runs-disconnect, Runs-expire, Runs-handle}
use videochat.Calls.Signaling.Runs.{
  announced_rows, Runs, announced_rows-append, Runs-here, exec_all-append, won_all-append,
}
use videochat.Calls.Signaling.Handle.{
  GoneOutcome, marked, cancel_failed, caller_failed, callee_failed, disconnect, handle_disconnect,
  Service, SweepOutcome, swept, first_failed, second_failed, sweep, Request, received, closed,
  timer, serve, serve_all,
}
use videochat.Calls.Signaling.Protocol.{Context, Outcome}
use videochat.Calls.Table.{missed, cancelled, CallRow, end_set, gone_ringing, missed_where}
use videochat.Prelude.{
  returning, count, count-append, ℕ, ◌+◌, ◌-◌, ◌*◌, ◌≤◌, ◌≡◌, refl, ◌∙◌, false, Option, none, some,
  List, [], ◌∷◌, ◌++◌, arith,
}

-- The rows that a disconnect ends and drops: those of its first UPDATE, when a later one fails.
unfoldable pub dropped_gone : List CallRow → ℕ → Option ℕ → GoneOutcome → List CallRow
dropped_gone calls now none outcome = []
dropped_gone calls now (some connection) marked = []
dropped_gone calls now (some connection) cancel_failed = []
dropped_gone calls now (some connection) _ =
    returning (gone_ringing connection) (end_set cancelled now) calls

-- The rows that a request ends and drops; for a sweep, those of its first UPDATE when its second fails.
unfoldable pub dropped : Context → Service → Request → List CallRow
unfolding dropped_gone
dropped ctx s (received now client event) = []
dropped ctx s (closed now client outcome) = dropped_gone s.calls now client.connection_id outcome
dropped ctx s (timer now swept) = []
dropped ctx s (timer now first_failed) = []
dropped ctx s (timer now second_failed) =
    returning (missed_where (now - ctx.ring_timeout_sec * 1000)) (end_set missed now) s.calls

unfoldable pub dropped_all : Context → Service → List Request → List CallRow
dropped_all ctx s [] = []
dropped_all ctx s (r ∷ rs) = dropped ctx s r ++ dropped_all ctx (serve ctx s r).0 rs

-- The table comes from statements, and every row that they hand out as ended is told or dropped.
pub record Ledger (calls calls' told untold : List CallRow) : Type 0 where
  pub statements : List Statement
  pub table : exec_all calls statements ≡ calls'
  pub wins :
      (k : ℕ)
      → count (has_id k) (won_all calls statements)
        ≡ count (has_id k) told + count (has_id k) untold

Ledger-Runs :
    (calls : List CallRow) (outcome : Outcome)
    → Runs calls outcome
    → Ledger calls outcome.0 (announced_rows outcome.1) []
Ledger-Runs calls outcome r = record {
  statements = r.statements;
  table = r.table;
  wins = λ k. rw r.wins (omega arith);
}

Ledger-append :
    (a b c told told' untold untold' : List CallRow)
    → Ledger a b told untold
    → Ledger b c told' untold'
    → Ledger a c (told ++ told') (untold ++ untold')
Ledger-append a b c told told' untold untold' x y = record {
  statements = x.statements ++ y.statements;
  table = exec_all-append a x.statements y.statements ∙ rw x.table y.table;
  wins = λ k.
      rw (won_all-append a x.statements y.statements, x.table)
        (omega (
          arith,
          count-append (has_id k) (won_all a x.statements) (won_all b y.statements),
          count-append (has_id k) told told',
          count-append (has_id k) untold untold',
          x.wins k,
          y.wins k,
        ));
}

Ledger-disconnect :
    (calls : List CallRow) (now : ℕ) (connection : Option ℕ) (outcome : GoneOutcome)
    → Ledger calls
        (disconnect calls now connection outcome).0
        (announced_rows (disconnect calls now connection outcome).1)
        (dropped_gone calls now connection outcome)
unfolding disconnect dropped_gone exec won exec_all won_all
Ledger-disconnect calls now none outcome = Ledger-Runs calls (calls, []) (Runs-here calls [] refl)
Ledger-disconnect calls now (some connection) marked =
    Ledger-Runs calls _ (Runs-disconnect calls connection now)
Ledger-disconnect calls now (some connection) cancel_failed =
    Ledger-Runs calls (calls, []) (Runs-here calls [] refl)
Ledger-disconnect calls now (some connection) caller_failed = record {
  statements = cancel_gone connection now ∷ [];
  table = refl;
  wins = λ k.
      rw (append-nil (returning (gone_ringing connection) (end_set cancelled now) calls))
        (omega arith);
}
Ledger-disconnect calls now (some connection) callee_failed = record {
  statements = cancel_gone connection now ∷ caller_gone connection now ∷ [];
  table = refl;
  wins = λ k.
      rw (append-nil (returning (gone_ringing connection) (end_set cancelled now) calls))
        (omega arith);
}

Ledger-sweep :
    (ctx : Context) (s : Service) (now : ℕ) (outcome : SweepOutcome)
    → Ledger s.calls
        (sweep ctx s now outcome).0.calls
        (announced_rows (sweep ctx s now outcome).1)
        (dropped ctx s (timer now outcome))
unfolding sweep dropped exec won exec_all won_all
Ledger-sweep ctx s now swept =
    Ledger-Runs s.calls _ (Runs-expire s.calls now ctx.ring_timeout_sec ctx.reconnect_grace_sec)
Ledger-sweep ctx s now first_failed = Ledger-Runs s.calls (s.calls, []) (Runs-here s.calls [] refl)
Ledger-sweep ctx s now second_failed = record {
  statements = expire_ringing (now - ctx.ring_timeout_sec * 1000) now ∷ [];
  table = refl;
  wins = λ k. rw append-nil (omega arith);
}

pub Ledger-serve :
    (ctx : Context) (s : Service) (r : Request)
    → Ledger s.calls (serve ctx s r).0.calls (announced_rows (serve ctx s r).1) (dropped ctx s r)
unfolding serve dropped handle_disconnect
Ledger-serve ctx s (received now client event) =
    Ledger-Runs s.calls _ (Runs-handle ctx s.calls now client event)
Ledger-serve ctx s (closed now client outcome) =
    Ledger-disconnect s.calls now client.connection_id outcome
Ledger-serve ctx s (timer now outcome) = Ledger-sweep ctx s now outcome

Ledger-serve_all :
    (ctx : Context) (s : Service) (rs : List Request)
    → Ledger s.calls
        (serve_all ctx s rs).0.calls
        (announced_rows (serve_all ctx s rs).1)
        (dropped_all ctx s rs)
unfolding serve_all dropped_all
Ledger-serve_all ctx s [] = Ledger-Runs s.calls (s.calls, []) (Runs-here s.calls [] refl)
Ledger-serve_all ctx s (r ∷ rs) =
    let here = Ledger-serve ctx s r in
    let later = Ledger-serve_all ctx (serve ctx s r).0 rs in
    rw announced_rows-append (Ledger-append s.calls _ _ _ _ _ _ here later)

abbrev pub started : Service
started = record { calls = []; sweep_failing = false }

-- Over any requests from the start, with any clocks, where each UPDATE of a sweep and of a disconnect
-- may fail (the other handlers' statements do not): the runs of the ended-listeners for a call, and
-- the times that a request which failed after its first UPDATE ended it, are together one if
-- the call stands in the table as ended, and none otherwise. So the listeners run at most once for
-- a call, only for an ended one, and exactly once for an ended one that no such failure ended.
pub announced_once :
    (ctx : Context) (rs : List Request) (k : ℕ)
    → let (s, log) = serve_all ctx started rs in
      (count (has_id k) (announced_rows log) + count (has_id k) (dropped_all ctx started rs)
        ≡ count (is_ended k) s.calls)
      × (count (has_id k) (announced_rows log) + count (has_id k) (dropped_all ctx started rs) ≤ 1)
announced_once ctx rs k =
    let l = Ledger-serve_all ctx started rs in
    let (same, once) = ended_once l.statements k in
    let ended_now = rw l.table at same in
    (omega (arith, l.wins k, ended_now), omega (arith, l.wins k, once))
