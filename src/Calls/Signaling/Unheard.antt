-- ===== src/Calls/Signaling/Unheard.antt =====
-- What CallSignalingService sends about a call whose callee has blocked the caller, to the callee and
-- to the caller.
use mathlib.Core.Path.{subst}
use videochat.Calls.Silenced.{IsSilenced, Silenced, Silenced-exec_all}
use videochat.Calls.Signaling.Silence.{
  Spares, AllSpare, Quiet-announce_all, Quiet, Quiet-nothing, keep-returning, Silenced-found,
  Quiet-callee,
}
use videochat.Calls.Signaling.SilenceAnswers.{
  Quiet-found, Quiet-accept, accepted-ne, Quiet-resume, resumed-ne,
}
use videochat.Calls.Signaling.Served.{Ledger-serve}
use videochat.Calls.Signaling.Handle.{
  dispatch, identified, handle, announced_all, GoneOutcome, marked, cancel_failed, caller_failed,
  callee_failed, disconnect, handle_disconnect, Service, SweepOutcome, swept, first_failed,
  second_failed, sweep, Request, received, closed, timer, serve, serve_all,
}
use videochat.Calls.Signaling.Answer.{ringing_row, ringing_found, to_peer, relay_found}
use videochat.Calls.Signaling.Invite.{send, on_invite}
use videochat.Calls.Signaling.Protocol.{
  RelayType, Effect, to_user, to_connection, to_socket, Context, Client, CallInvite, Relay,
  ClientEvent, invite, rang, accept, hang_up, relay, resume, other,
}
use videochat.Calls.Table.{
  missed, cancelled, connection_lost, CallRow, insert_call, get_call, find_open_call_for_user,
  accept_call, end_set, gone_ringing, handle_connection_gone, resume_call, missed_where, lost_where,
  end_expired_calls, peer_connection_of, find_direct_peer,
}
use videochat.Tables.{User, Block, is_blocked}
use videochat.Prelude.{
  ◌==◌, if◌then◌else◌, All, All-append, update, returning, All-update, All-returning, ℕ, ◌-◌, ◌*◌,
  ◌≡◌, refl, ◌≢◌, Bool, Option, none, some, List, [], ◌∷◌, arith,
}
use videochat.Calls.Statements.{Statement, exec, exec_all}

module _ (k callee : ℕ) where
  Spares-ringing :
      (user : ℕ) (o : Option CallRow)
      → ((call : CallRow) → o ≡ some call → IsSilenced k callee call)
      → AllSpare k callee (ringing_found user o)
  unfolding ringing_found ringing_row
  Spares-ringing user none h = tt
  Spares-ringing user (some call) h = ground (arith, h call refl)

  -- Only an active call has a peer to relay to.
  Spares-relay :
      (connection : ℕ) (kind : RelayType) (payload : Relay) (o : Option CallRow)
      → ((call : CallRow) → o ≡ some call → IsSilenced k callee call × (call.id ≡ payload.call_id))
      → AllSpare k callee (relay_found connection kind payload o)
  unfolding relay_found to_peer peer_connection_of
  Spares-relay connection kind payload none h = tt
  Spares-relay connection kind payload (some call) h = ground (arith, h call refl)

  Quiet-dispatch :
      (ctx : Context) (calls : List CallRow) (now : ℕ) (client : Client) (user connection : ℕ)
      (event : ClientEvent)
      → Silenced k callee calls
      → Quiet k callee (dispatch ctx calls now client user connection event)
  unfolding dispatch exec exec_all accept_call
  Quiet-dispatch ctx calls now client user connection (invite none) h = Quiet-nothing k callee calls
  Quiet-dispatch ctx calls now client user connection (invite (some inv)) h =
      Quiet-callee k callee ctx calls now client user connection inv
        (find_direct_peer ctx.conversations ctx.memberships ctx.users inv.conversation_id user) h
  Quiet-dispatch ctx calls now client user connection (rang none) h = Quiet-nothing k callee calls
  Quiet-dispatch ctx calls now client user connection (rang (some id)) h = record {
    spares =
        Spares-ringing user (get_call calls id)
          (λ call e. (Silenced-found k callee calls id call h e).0);
  }
  Quiet-dispatch ctx calls now client user connection (accept none) h = Quiet-nothing k callee calls
  Quiet-dispatch ctx calls now client user connection (accept (some id)) h =
      Quiet-accept k callee (accept_call calls id user connection now).0 user connection id
        (accept_call calls id user connection now).1
        (Silenced-exec_all k callee calls (Statement.accept id user connection now ∷ []) h)
        (λ call e. accepted-ne k callee calls id user connection now call h e)
  Quiet-dispatch ctx calls now client user connection (hang_up action none) h =
      Quiet-nothing k callee calls
  Quiet-dispatch ctx calls now client user connection (hang_up action (some id)) h =
      Quiet-found k callee calls now user action (get_call calls id) h
  Quiet-dispatch ctx calls now client user connection (relay kind none) h =
      Quiet-nothing k callee calls
  Quiet-dispatch ctx calls now client user connection (relay kind (some payload)) h = record {
    spares =
        Spares-relay connection kind payload (get_call calls payload.call_id)
          (λ call e. Silenced-found k callee calls payload.call_id call h e);
  }
  Quiet-dispatch ctx calls now client user connection (resume none) h = Quiet-nothing k callee calls
  Quiet-dispatch ctx calls now client user connection (resume (some id)) h =
      Quiet-resume k callee (resume_call calls id user connection).0 connection id
        (resume_call calls id user connection).1
        (λ call e. resumed-ne k callee calls id user connection call h e)
  Quiet-dispatch ctx calls now client user connection other h = Quiet-nothing k callee calls

  Quiet-handle :
      (ctx : Context) (calls : List CallRow) (now : ℕ) (client : Client) (event : ClientEvent)
      (user connection : Option ℕ)
      → Silenced k callee calls
      → Quiet k callee (identified ctx calls now client event user connection)
  unfolding identified
  Quiet-handle ctx calls now client event (some user) (some connection) h =
      Quiet-dispatch ctx calls now client user connection event h
  Quiet-handle ctx calls now client event (some user) none h = Quiet-nothing k callee calls
  Quiet-handle ctx calls now client event none connection h = Quiet-nothing k callee calls

  Quiet-disconnect :
      (calls : List CallRow) (now : ℕ) (connection : Option ℕ) (outcome : GoneOutcome)
      → Silenced k callee calls
      → AllSpare k callee (disconnect calls now connection outcome).1
  unfolding disconnect announced_all handle_connection_gone
  Quiet-disconnect calls now none outcome h = tt
  Quiet-disconnect calls now (some connection) cancel_failed h = tt
  Quiet-disconnect calls now (some connection) caller_failed h = tt
  Quiet-disconnect calls now (some connection) callee_failed h = tt
  Quiet-disconnect calls now (some connection) marked h =
      Quiet-announce_all k callee
        (returning (gone_ringing connection) (end_set cancelled now) calls)
        (keep-returning k callee (gone_ringing connection) cancelled now calls h)

  Quiet-sweep :
      (ctx : Context) (s : Service) (now : ℕ) (outcome : SweepOutcome)
      → Silenced k callee s.calls
      → AllSpare k callee (sweep ctx s now outcome).1
  unfolding sweep announced_all end_expired_calls
  Quiet-sweep ctx s now first_failed h = tt
  Quiet-sweep ctx s now second_failed h = tt
  Quiet-sweep ctx s now swept h =
      let late : CallRow → Bool = missed_where (now - ctx.ring_timeout_sec * 1000) in
      let gone_too_long : CallRow → Bool = lost_where (now - ctx.reconnect_grace_sec * 1000) in
      let rest : List CallRow = update late (end_set missed now) s.calls in
      Quiet-announce_all k callee
        (end_expired_calls s.calls now ctx.ring_timeout_sec ctx.reconnect_grace_sec).1
        (All-append (IsSilenced k callee) (returning late (end_set missed now) s.calls)
          (returning gone_too_long (end_set connection_lost now) rest)
          (keep-returning k callee late missed now s.calls h)
          (All-returning (IsSilenced k callee) (IsSilenced k callee) gone_too_long
            (end_set connection_lost now) rest (λ r e v. ground arith)
            (All-update (IsSilenced k callee) late (end_set missed now) s.calls
              (λ r e v. ground arith) h.1)))

  Quiet-serve :
      (ctx : Context) (s : Service) (r : Request)
      → Silenced k callee s.calls
      → AllSpare k callee (serve ctx s r).1
  unfolding serve handle handle_disconnect
  Quiet-serve ctx s (received now client event) h =
      (Quiet-handle ctx s.calls now client event client.user_id client.connection_id h).spares
  Quiet-serve ctx s (closed now client outcome) h =
      Quiet-disconnect s.calls now client.connection_id outcome h
  Quiet-serve ctx s (timer now outcome) h = Quiet-sweep ctx s now outcome h

  Silenced-serve :
      (ctx : Context) (s : Service) (r : Request)
      → Silenced k callee s.calls
      → Silenced k callee (serve ctx s r).0.calls
  Silenced-serve ctx s r h =
      let l = Ledger-serve ctx s r in
      subst (Silenced k callee) l.table (Silenced-exec_all k callee s.calls l.statements h)

  -- If the call is in the table, silenced, not active, and placed by somebody other than the user (its
  -- callee), then over any requests, sweeps and disconnects that fail included: nothing about it is published to
  -- that user, no push that rings for it is started, and all that any connection or socket, the user's own
  -- included, is sent about it is that it has ended.
  pub unheard :
      (ctx : Context) (s : Service) (rs : List Request)
      → Silenced k callee s.calls
      → All (Spares k callee) (serve_all ctx s rs).1
  unfolding serve_all
  unheard ctx s [] h = tt
  unheard ctx s (r ∷ rs) h =
      All-append (Spares k callee) (serve ctx s r).1 (serve_all ctx (serve ctx s r).0 rs).1
        (Quiet-serve ctx s r h) (unheard ctx (serve ctx s r).0 rs (Silenced-serve ctx s r h))

-- What the inviting socket and the other devices of its user are sent.
abbrev pub heard_by : ℕ → ℕ → List Effect → List Effect
heard_by caller connection [] = []
heard_by caller connection (to_socket event ∷ es) = to_socket event ∷ heard_by caller connection es
heard_by caller connection (to_user u event ∷ es) =
    let rest = heard_by caller connection es in if u == caller then to_user u event ∷ rest else rest
heard_by caller connection (to_connection c event ∷ es) =
    let rest = heard_by caller connection es in
    if c == connection then to_connection c event ∷ rest else rest
heard_by caller connection (_ ∷ es) = heard_by caller connection es

-- Inviting somebody who is in no open call. Whom the callee has blocked makes no difference to what the
-- caller is sent in answer: with any two tables of blocks that agree on whether the caller has
-- blocked the callee, it is the same.
pub invite_hides_block :
    (ctx : Context) (blocks : List Block) (calls : List CallRow) (now : ℕ) (client : Client)
    (caller connection : ℕ) (inv : CallInvite) (callee : User)
    → find_direct_peer ctx.conversations ctx.memberships ctx.users inv.conversation_id caller
      ≡ some callee
    → callee.id ≢ caller
    → find_open_call_for_user calls callee.id ≡ none
    → is_blocked blocks caller callee.id ≡ is_blocked ctx.blocks caller callee.id
    → heard_by caller connection
        (on_invite (record ctx { blocks = blocks }) calls now client caller connection (some inv)).1
      ≡ heard_by caller connection (on_invite ctx calls now client caller connection (some inv)).1
unfolding on_invite insert_call send
invite_hides_block ctx blocks calls now client caller connection inv callee peer different idle
      same =
    ground arith
