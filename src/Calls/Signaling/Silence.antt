-- ===== src/Calls/Signaling/Silence.antt =====
-- What it means that the handlers of CallSignalingService spare the callee of a silenced call (one
-- placed by a person whom the callee has blocked), handler by handler.
use videochat.Calls.Races.{has_id}
use videochat.Calls.Silenced.{IsSilenced, Silenced, Silenced-exec_all}
use videochat.Calls.Statements.{insert, exec, exec_all}
use videochat.Calls.Signaling.Announce.{announce_ended, announce_all, announce_if}
use videochat.Calls.Signaling.Invite.{send, invite_result, invite_callee}
use videochat.Calls.Signaling.Answer.{announced}
use videochat.Calls.Signaling.Protocol.{
  ServerEvent, incoming, rings, accepted, call_ended, relayed, resumed, Effect, to_user,
  to_connection, to_socket, ended_listeners, incoming_listeners, Context, Client, CallInvite,
  Outcome,
}
use videochat.Calls.Table.{
  CallStatus, ringing, CallEndReason, busy, unavailable, CallRow, NewCall, insert_call, get_call,
  end_set, end_where, end_call,
}
use videochat.Tables.{User}
use videochat.Prelude.{
  ◌==◌, if◌then◌else◌, Bool-cases, head?, any, All, All-append, returning, find-holds,
  All-returning, All-find, ℕ, ◌≡◌, refl, ◌∙◌, ◌≢◌, inl, inr, Bool, true, false, Option, none, some,
  List, [], ◌∷◌, arith,
}

-- The call that a message is about.
abbrev pub about : ServerEvent → ℕ
about (incoming id conversation media caller) = id
about (rings id) = id
about (accepted id connection) = id
about (call_ended id reason) = id
about (relayed kind id content) = id
about (resumed id) = id

abbrev pub tells_end : ServerEvent → Bool
tells_end (call_ended id reason) = true
tells_end _ = false

-- Nothing about the call is published to the user, no push that rings for it is started, and no
-- connection or socket of anybody is sent anything about it but that it has ended.
abbrev pub Spares : ℕ → ℕ → Effect → Type 0
Spares k user (to_user u event) = about event ≡ k → u ≢ user
Spares k user (incoming_listeners call summary) = call.id ≢ k
Spares k user (to_connection c event) = about event ≡ k → tells_end event ≡ true
Spares k user (to_socket event) = about event ≡ k → tells_end event ≡ true
Spares k user (ended_listeners call) = Unit

module _ (k callee : ℕ) where
  abbrev pub AllSpare : List Effect → Type 0
  AllSpare = All (Spares k callee)

  pub Quiet-announce_ended :
      (call : CallRow) → IsSilenced k callee call → AllSpare (announce_ended call)
  unfolding announce_ended
  Quiet-announce_ended call h = ground arith

  pub Quiet-announce_all :
      (calls : List CallRow) → All (IsSilenced k callee) calls → AllSpare (announce_all calls)
  unfolding announce_all
  Quiet-announce_all [] h = tt
  Quiet-announce_all (call ∷ calls) h =
      All-append (Spares k callee) (announce_ended call) (announce_all calls)
        (Quiet-announce_ended call h.0) (Quiet-announce_all calls h.1)

  pub Quiet-announce_if :
      (calls : List CallRow)
      → All (IsSilenced k callee) calls
      → AllSpare (announce_if (head? calls))
  unfolding announce_if
  Quiet-announce_if [] h = tt
  Quiet-announce_if (call ∷ calls) h = Quiet-announce_ended call h.0

  -- The messages of an outcome spare the callee.
  pub record Quiet (outcome : Outcome) : Type 0 where
    pub spares : AllSpare outcome.1

  pub Quiet-nothing : (calls : List CallRow) → Quiet (calls, [])
  Quiet-nothing calls = record { spares = tt }

  pub Quiet-if : (b : Bool) (x y : Outcome) → Quiet x → Quiet y → Quiet (if b then x else y)
  Quiet-if true x y hx hy = hx
  Quiet-if false x y hx hy = hy

  pub keep-returning :
      (p : CallRow → Bool) (reason : CallEndReason) (now : ℕ) (calls : List CallRow)
      → Silenced k callee calls
      → All (IsSilenced k callee) (returning p (end_set reason now) calls)
  keep-returning p reason now calls h =
      All-returning (IsSilenced k callee) (IsSilenced k callee) p (end_set reason now) calls
        (λ r e s. ground arith) h.1

  pub Silenced-found :
      (calls : List CallRow) (id : ℕ) (call : CallRow)
      → Silenced k callee calls
      → get_call calls id ≡ some call
      → IsSilenced k callee call × (call.id ≡ id)
  unfolding get_call
  Silenced-found calls id call h e = (
    All-find (IsSilenced k callee) (λ r. r.id == id) calls call e h.1,
    ground (arith, find-holds (λ (r : CallRow). r.id == id) calls call e),
  )

  pub Quiet-end_call :
      (calls : List CallRow) (id : ℕ) (reason : CallEndReason) (from : List CallStatus) (now : ℕ)
      → Silenced k callee calls
      → Quiet (announced (end_call calls id reason from now))
  unfolding announced end_call
  Quiet-end_call calls id reason from now h = record {
    spares =
        Quiet-announce_if (returning (end_where id from) (end_set reason now) calls)
          (keep-returning (end_where id from) reason now calls h);
  }

  pub Quiet-send :
      (calls : List CallRow) (client : Client) (id : ℕ) (reason : CallEndReason)
      → Quiet (calls, send client (call_ended id reason))
  unfolding send
  Quiet-send calls client id reason = record { spares = ground arith }

  pub Quiet-invite :
      (ctx : Context) (client : Client) (inv : CallInvite) (calls : List CallRow) (user : ℕ)
      (silenced callee_busy : Bool) (now : ℕ) (o : Option CallRow)
      → Silenced k callee calls
      → ((call : CallRow) → o ≡ some call → inv.call_id ≢ k)
      → ((call : CallRow) → o ≡ some call → call.id ≢ k)
      → Quiet (invite_result ctx client inv user silenced callee_busy now (calls, o))
  unfolding invite_result
  Quiet-invite ctx client inv calls user silenced callee_busy now none h same new =
      Quiet-nothing calls
  Quiet-invite ctx client inv calls user silenced true now (some call) h same new =
      unfold announced in Quiet-end_call calls call.id busy (ringing ∷ []) now h
  Quiet-invite ctx client inv calls user true false now (some call) h same new = Quiet-nothing calls
  Quiet-invite ctx client inv calls user false false now (some call) h same new = record {
    spares = ground (arith, same call refl, new call refl);
  }

  any-id :
      (calls : List CallRow) (id : ℕ) → id ≡ k → any (λ r. r.id == id) calls ≡ any (has_id k) calls
  any-id calls id e = rw e

  -- A call that is inserted has another id, since the silenced one is in the table.
  inserted-ne :
      (calls : List CallRow) (c : NewCall) (now : ℕ) (call : CallRow)
      → Silenced k callee calls
      → (insert_call calls c now).1 ≡ some call
      → (call.id ≢ k) × (c.id ≢ k)
  unfolding insert_call
  inserted-ne calls c now call h e = elim (Bool-cases (any (λ r. r.id == c.id) calls)) [
    | inl taken ↦ cc (rw taken at e)
    | inr free ↦ ground (arith, any-id calls c.id)
  ]

  pub Quiet-insert :
      (ctx : Context) (client : Client) (inv : CallInvite) (calls : List CallRow) (c : NewCall)
      (user : ℕ) (silenced callee_busy : Bool) (now : ℕ)
      → Silenced k callee calls
      → c.id ≡ inv.call_id
      → Quiet (invite_result ctx client inv user silenced callee_busy now (insert_call calls c now))
  unfolding insert_call exec_all exec
  Quiet-insert ctx client inv calls c user silenced callee_busy now h same =
      Quiet-invite ctx client inv (insert_call calls c now).0 user silenced callee_busy now
        (insert_call calls c now).1 (Silenced-exec_all k callee calls (insert c now ∷ []) h)
        (λ call e p. (inserted-ne calls c now call h e).1 (same ∙ p))
        (λ call e. (inserted-ne calls c now call h e).0)

  pub Quiet-callee :
      (ctx : Context) (calls : List CallRow) (now : ℕ) (client : Client) (caller connection : ℕ)
      (inv : CallInvite) (o : Option User)
      → Silenced k callee calls
      → Quiet (invite_callee ctx calls now client caller connection inv o)
  unfolding invite_callee
  Quiet-callee ctx calls now client caller connection inv none h =
      Quiet-send calls client inv.call_id unavailable
  Quiet-callee ctx calls now client caller connection inv (some user) h =
      Quiet-if _ _ _ (Quiet-send calls client inv.call_id unavailable) (
        Quiet-if _ _ _ (Quiet-send calls client inv.call_id busy)
          (Quiet-insert ctx client inv calls _ user.id _ _ now h refl))
