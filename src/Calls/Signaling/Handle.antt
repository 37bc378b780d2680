-- ===== src/Calls/Signaling/Handle.antt =====
-- `handle`, `handleDisconnect` and `sweep` of CallSignalingService.
use videochat.Calls.Signaling.Answer.{on_ringing, on_accept, on_hang_up, on_relay, on_resume}
use videochat.Calls.Signaling.Invite.{on_invite}
use videochat.Calls.Signaling.Announce.{announce_all}
use videochat.Calls.Signaling.Protocol.{
  Effect, Context, Client, ClientEvent, invite, rang, accept, hang_up, relay, resume, other,
  Outcome,
}
use videochat.Calls.Table.{
  missed, cancelled, CallRow, end_set, gone_ringing, gone_caller, mark_caller_gone,
  handle_connection_gone, missed_where, end_expired_calls,
}
use videochat.Prelude.{
  update, ℕ, ◌-◌, ◌*◌, Bool, true, false, Option, none, some, List, [], ◌∷◌, ◌++◌,
}

unfoldable pub dispatch : Context → List CallRow → ℕ → Client → ℕ → ℕ → ClientEvent → Outcome
unfolding on_invite on_ringing on_accept on_hang_up on_relay on_resume
dispatch ctx calls now client user connection (invite payload) =
    on_invite ctx calls now client user connection payload
dispatch ctx calls now client user connection (rang payload) = on_ringing calls user payload
dispatch ctx calls now client user connection (accept payload) =
    on_accept calls now user connection payload
dispatch ctx calls now client user connection (hang_up action payload) =
    on_hang_up calls now user action payload
dispatch ctx calls now client user connection (relay kind payload) =
    on_relay calls connection kind payload
dispatch ctx calls now client user connection (resume payload) =
    on_resume calls user connection payload
dispatch ctx calls now client user connection other = (calls, [])

unfoldable pub identified :
    Context → List CallRow → ℕ → Client → ClientEvent → Option ℕ → Option ℕ → Outcome
identified ctx calls now client event (some user) (some connection) =
    dispatch ctx calls now client user connection event
identified ctx calls now client event _ _ = (calls, [])

-- `handle`: a socket without a user or a connection id is ignored.
unfoldable pub handle : Context → List CallRow → ℕ → Client → ClientEvent → Outcome
unfolding identified dispatch
handle ctx calls now client event =
    identified ctx calls now client event client.user_id client.connection_id

unfoldable pub announced_all : List CallRow × List CallRow → Outcome
unfolding announce_all
announced_all (calls, over) = (calls, announce_all over)

-- What becomes of the three UPDATEs of `handleConnectionGone`, which share no transaction.
pub data GoneOutcome : Type 0 where
  marked cancel_failed caller_failed callee_failed : GoneOutcome

-- When a later UPDATE fails, the calls that the first one cancelled stay cancelled, and the rows it
-- returned are dropped with the exception.
unfoldable pub disconnect : List CallRow → ℕ → Option ℕ → GoneOutcome → Outcome
unfolding announced_all
disconnect calls now none outcome = (calls, [])
disconnect calls now (some connection) marked =
    announced_all (handle_connection_gone calls connection now)
disconnect calls now (some connection) cancel_failed = (calls, [])
disconnect calls now (some connection) caller_failed =
    (update (gone_ringing connection) (end_set cancelled now) calls, [])
disconnect calls now (some connection) callee_failed =
    let after_cancel = update (gone_ringing connection) (end_set cancelled now) calls in
    (update (gone_caller connection) (mark_caller_gone now) after_cancel, [])

unfoldable pub handle_disconnect : List CallRow → ℕ → Client → GoneOutcome → Outcome
unfolding disconnect
handle_disconnect calls now client outcome = disconnect calls now client.connection_id outcome

-- The service's own state: whether the last sweep failed, so that a failure is logged once.
pub record Service : Type 0 where
  pub calls : List CallRow
  pub sweep_failing : Bool

-- What becomes of the two UPDATEs of `endExpiredCalls`, which share no transaction.
pub data SweepOutcome : Type 0 where
  swept first_failed second_failed : SweepOutcome

-- `sweep`. When the second UPDATE fails, the calls that the first one ended stay ended, and the rows
-- it returned are dropped with the exception.
unfoldable pub sweep : Context → Service → ℕ → SweepOutcome → Service × List Effect
unfolding announced_all
sweep ctx s now first_failed = (record s { sweep_failing = true }, [])
sweep ctx s now second_failed =
    let ring_cutoff = now - ctx.ring_timeout_sec * 1000 in
    (
      record {
        calls = update (missed_where ring_cutoff) (end_set missed now) s.calls;
        sweep_failing = true;
      },
      [],
    )
sweep ctx s now swept =
    let (calls, effects) =
      announced_all (end_expired_calls s.calls now ctx.ring_timeout_sec ctx.reconnect_grace_sec) in
    (record { calls = calls; sweep_failing = false }, effects)

-- What reaches the service: an event of a client, a socket that closed, or the sweep timer, each with
-- the clock.
pub data Request : Type 0 where
  received : ℕ → Client → ClientEvent → Request
  closed : ℕ → Client → GoneOutcome → Request
  timer : ℕ → SweepOutcome → Request

unfoldable pub serve : Context → Service → Request → Service × List Effect
serve ctx s (received now client event) =
    let (calls, effects) = handle ctx s.calls now client event in
    (record s { calls = calls }, effects)
serve ctx s (closed now client outcome) =
    let (calls, effects) = handle_disconnect s.calls now client outcome in
    (record s { calls = calls }, effects)
serve ctx s (timer now outcome) = sweep ctx s now outcome

unfoldable pub serve_all : Context → Service → List Request → Service × List Effect
serve_all ctx s [] = (s, [])
serve_all ctx s (r ∷ rs) =
    let (s', first) = serve ctx s r in let (s'', rest) = serve_all ctx s' rs in (s'', first ++ rest)
