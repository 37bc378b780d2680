-- ===== src/Calls/Signaling/Authority.antt =====
-- Who may change a call: nobody but its two participants, by any event they send to
-- CallSignalingService.
use videochat.Prelude.{
  ℕ, ◌≡◌, ◌≢◌, refl, Bool, true, false, Option, none, some, List, [], ◌∷◌, arith, find-holds,
  update, find-update, ◌∙◌, any, if◌then◌else◌, ◌==◌, Bool-cases, any-find, inl, inr, ◌||◌,
  Option-cases, sym,
}
use videochat.Calls.Table.{
  CallRow, get_call, end_call, CallEndReason, CallStatus, end_where, end_set, insert_call, NewCall,
  busy, ringing, find_direct_peer, accept_call, resume_as_callee, accept_where, cancelled,
  resume_callee_where, accept_set, declined, resume_callee_set, unavailable, completed, resume_call,
  resume_caller_where, resume_caller_set, active, ended,
}
use videochat.Calls.Signaling.Protocol.{
  invite, rang, accept, hang_up, relay, resume, other, Outcome, Context, Client, CallInvite, Action,
  Effect, ClientEvent, call_ended,
}
use videochat.Calls.Signaling.Answer.{
  announced, hang_up_found, accept_result, hang_up_row, resume_result,
}
use videochat.Calls.Races.{has_id}
use videochat.Calls.Signaling.Invite.{invite_callee, invite_result, send}
use videochat.Tables.{User}
use videochat.Calls.Signaling.Handle.{dispatch, handle, identified}
use mathlib.Core.Option.{some-injective}

module _ (k : ℕ) (r : CallRow) where
  abbrev Keeps : List CallRow → Type 0
  Keeps calls = get_call calls k ≡ some r

  Keeps-update :
      (p : CallRow → Bool) (f : CallRow → CallRow) (calls : List CallRow)
      → ((x : CallRow) → (f x).id ≡ x.id)
      → p r ≡ false
      → Keeps calls
      → Keeps (update p f calls)
  unfolding get_call
  Keeps-update p f calls same out h =
      find-update (has_id k) p f calls (λ x. rw (same x)) ∙ rw h (rw out)

  named : (calls : List CallRow) → Keeps calls → r.id ≡ k
  unfolding get_call
  named calls h = ground (arith, find-holds (has_id k) calls r h)

  -- An outcome in which the row is as it was.
  record Kept (outcome : Outcome) : Type 0 where
    row : Keeps outcome.0

  Kept-same : (calls : List CallRow) (effects : List Effect) → Keeps calls → Kept (calls, effects)
  Kept-same calls effects h = record { row = h }

  Kept-end_call :
      (calls : List CallRow) (id : ℕ) (reason : CallEndReason) (from : List CallStatus) (now : ℕ)
      → id ≢ k
      → Keeps calls
      → Kept (announced (end_call calls id reason from now))
  unfolding announced end_call
  Kept-end_call calls id reason from now ne h = record {
    row =
        Keeps-update (end_where id from) (end_set reason now) calls (λ x. refl)
          (ground (arith, named calls h)) h;
  }

  Kept-if : (b : Bool) (x y : Outcome) → Kept x → Kept y → Kept (if b then x else y)
  Kept-if true x y hx hy = hx
  Kept-if false x y hx hy = hy

  Kept-invite :
      (ctx : Context) (client : Client) (inv : CallInvite) (calls : List CallRow) (callee : ℕ)
      (silenced callee_busy : Bool) (now : ℕ) (o : Option CallRow)
      → Keeps calls
      → ((call : CallRow) → o ≡ some call → call.id ≢ k)
      → Kept (invite_result ctx client inv callee silenced callee_busy now (calls, o))
  unfolding invite_result
  Kept-invite ctx client inv calls callee silenced callee_busy now none h new = Kept-same calls [] h
  Kept-invite ctx client inv calls callee silenced true now (some call) h new =
      unfold announced in Kept-end_call calls call.id busy (ringing ∷ []) now (new call refl) h
  Kept-invite ctx client inv calls callee true false now (some call) h new = Kept-same calls [] h
  Kept-invite ctx client inv calls callee false false now (some call) h new = record { row = h }

  taken :
      (calls : List CallRow) (id : ℕ) → Keeps calls → id ≡ k → any (λ x. x.id == id) calls ≡ true
  unfolding get_call
  taken calls id h e = rw e (rw (any-find (λ x. x.id == k) calls) (rw h))

  Keeps-insert :
      (calls : List CallRow) (c : NewCall) (now : ℕ)
      → Keeps calls
      → Keeps (insert_call calls c now).0
        × ((call : CallRow) → (insert_call calls c now).1 ≡ some call → call.id ≢ k)
  unfolding insert_call get_call
  Keeps-insert calls c now h = elim (Bool-cases (any (λ x. x.id == c.id) calls)) [
    | inl old ↦ rw old (h, λ call e. cc)
    | inr new ↦
        let other : c.id ≢ k = λ e. cc (new, taken calls c.id h e) in
        rw new (ground (arith, other), λ call e. ground (arith, other))
  ]

  Kept-insert :
      (ctx : Context) (client : Client) (inv : CallInvite) (calls : List CallRow) (c : NewCall)
      (callee : ℕ) (silenced callee_busy : Bool) (now : ℕ)
      → Keeps calls
      → Kept
          (invite_result ctx client inv callee silenced callee_busy now (insert_call calls c now))
  Kept-insert ctx client inv calls c callee silenced callee_busy now h =
      let (table, new) = Keeps-insert calls c now h in
      Kept-invite ctx client inv (insert_call calls c now).0 callee silenced callee_busy now
        (insert_call calls c now).1 table new

  Kept-callee :
      (ctx : Context) (calls : List CallRow) (now : ℕ) (client : Client) (caller connection : ℕ)
      (inv : CallInvite) (o : Option User)
      → Keeps calls
      → Kept (invite_callee ctx calls now client caller connection inv o)
  unfolding invite_callee
  Kept-callee ctx calls now client caller connection inv none h =
      Kept-same calls (send client (call_ended inv.call_id unavailable)) h
  Kept-callee ctx calls now client caller connection inv (some callee) h =
      Kept-if _ _ _ (Kept-same calls (send client (call_ended inv.call_id unavailable)) h) (
        Kept-if _ _ _ (Kept-same calls (send client (call_ended inv.call_id busy)) h)
          (Kept-insert ctx client inv calls _ callee.id _ _ now h))

  Kept-hang_up :
      (calls : List CallRow) (now user : ℕ) (action : Action) (call : CallRow) (status : CallStatus)
      → call.id ≢ k
      → Keeps calls
      → Kept (hang_up_row calls now user action call status)
  unfolding hang_up_row
  Kept-hang_up calls now user action call ringing ne h =
      Kept-if _ _ _ (Kept-end_call calls call.id cancelled (ringing ∷ []) now ne h) (
        Kept-if _ _ _ (Kept-end_call calls call.id declined (ringing ∷ []) now ne h)
          (Kept-same calls [] h))
  Kept-hang_up calls now user action call active ne h =
      Kept-if _ _ _ (Kept-end_call calls call.id completed (active ∷ []) now ne h)
        (Kept-same calls [] h)
  Kept-hang_up calls now user action call ended ne h = Kept-same calls [] h

  Kept-accept :
      (calls : List CallRow) (user connection id : ℕ) (o : Option CallRow)
      → Keeps calls
      → Kept (accept_result user connection id (calls, o))
  unfolding accept_result
  Kept-accept calls user connection id (some call) h = record { row = h }
  Kept-accept calls user connection id none h = record { row = h }

  Kept-resume :
      (calls : List CallRow) (connection id : ℕ) (o : Option CallRow)
      → Keeps calls
      → Kept (resume_result connection id (calls, o))
  unfolding resume_result
  Kept-resume calls connection id (some call) h = record { row = h }
  Kept-resume calls connection id none h = record { row = h }

  -- From here on, the event is of a user who is neither the caller nor the callee.
  module _ (user : ℕ) (not_caller : r.caller_id ≢ user) (not_callee : r.callee_id ≢ user) where
    Kept-found :
        (calls : List CallRow) (now : ℕ) (action : Action) (o : Option CallRow)
        → Keeps calls
        → ((call : CallRow) → o ≡ some call → call.id ≡ k → call ≡ r)
        → Kept (hang_up_found calls now user action o)
    unfolding hang_up_found
    Kept-found calls now action none h found = Kept-same calls [] h
    Kept-found calls now action (some call) h found = elim (Bool-cases (call.id == k)) [
      | inl same ↦
          let e : call ≡ r = found call refl (ground arith) in
          let outsider : (call.caller_id == user || call.callee_id == user) ≡ false =
            rw e (ground arith) in
          rw outsider (Kept-same calls [] h)
      | inr differs ↦
          Kept-if _ _ _ (Kept-hang_up calls now user action call call.status (ground arith) h)
            (Kept-same calls [] h)
    ]

    found-eq :
        (calls : List CallRow) (id : ℕ) (call : CallRow)
        → Keeps calls
        → get_call calls id ≡ some call
        → call.id ≡ k
        → call ≡ r
    unfolding get_call
    found-eq calls id call h e named_k =
        let same : id ≡ k = ground (arith, find-holds (has_id id) calls call e) in
        some-injective call r (sym (rw same at e) ∙ h)

    Kept-resume_as_callee :
        (calls : List CallRow) (id connection : ℕ) (o : Option CallRow)
        → Keeps calls
        → Keeps (resume_as_callee calls id user connection o).0
    Kept-resume_as_callee calls id connection (some row) h = h
    Kept-resume_as_callee calls id connection none h =
        Keeps-update (resume_callee_where id user) (resume_callee_set connection) calls (λ x. refl)
          (ground arith) h

    Kept-dispatch :
        (ctx : Context) (calls : List CallRow) (now : ℕ) (client : Client) (connection : ℕ)
        (event : ClientEvent)
        → Keeps calls
        → Kept (dispatch ctx calls now client user connection event)
    unfolding dispatch
    Kept-dispatch ctx calls now client connection (invite none) h = Kept-same calls [] h
    Kept-dispatch ctx calls now client connection (invite (some inv)) h =
        Kept-callee ctx calls now client user connection inv
          (find_direct_peer ctx.conversations ctx.memberships ctx.users inv.conversation_id user) h
    Kept-dispatch ctx calls now client connection (rang none) h = Kept-same calls [] h
    Kept-dispatch ctx calls now client connection (rang (some id)) h = record { row = h }
    Kept-dispatch ctx calls now client connection (accept none) h = Kept-same calls [] h
    Kept-dispatch ctx calls now client connection (accept (some id)) h =
        Kept-accept (accept_call calls id user connection now).0 user connection id
          (accept_call calls id user connection now).1
          (unfold accept_call in
            Keeps-update (accept_where id user) (accept_set connection now) calls (λ x. refl)
              (ground arith) h)
    Kept-dispatch ctx calls now client connection (hang_up action none) h = Kept-same calls [] h
    Kept-dispatch ctx calls now client connection (hang_up action (some id)) h =
        Kept-found calls now action (get_call calls id) h (λ call e. found-eq calls id call h e)
    Kept-dispatch ctx calls now client connection (relay kind none) h = Kept-same calls [] h
    Kept-dispatch ctx calls now client connection (relay kind (some payload)) h =
        Kept-same calls _ h
    Kept-dispatch ctx calls now client connection (resume none) h = Kept-same calls [] h
    Kept-dispatch ctx calls now client connection (resume (some id)) h =
        Kept-resume (resume_call calls id user connection).0 connection id
          (resume_call calls id user connection).1
          (unfold resume_call in
            Kept-resume_as_callee _ id connection _ (
              Keeps-update (resume_caller_where id user) (resume_caller_set connection) calls
                (λ x. refl) (ground arith) h))
    Kept-dispatch ctx calls now client connection other h = Kept-same calls [] h

-- Whatever a client whose user is neither the caller nor the callee of a call sends, the row of that
-- call stays as it was.
pub outsider_changes_nothing :
    (ctx : Context) (calls : List CallRow) (now : ℕ) (client : Client) (event : ClientEvent) (k : ℕ)
    (r : CallRow) (user : ℕ)
    → client.user_id ≡ some user
    → get_call calls k ≡ some r
    → r.caller_id ≢ user
    → r.callee_id ≢ user
    → get_call (handle ctx calls now client event).0 k ≡ some r
unfolding handle
outsider_changes_nothing ctx calls now client event k r user e h not_caller not_callee =
    elim (Option-cases client.connection_id) [
      | inl gone ↦ rw (e, gone, identified) h
      | inr (connection, there) ↦
          rw (e, there, identified)
            ((Kept-dispatch k r user not_caller not_callee ctx calls now client connection event
              h).row)
    ]
