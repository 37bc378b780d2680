-- ===== src/Calls/Signaling/Relaying.antt =====
-- Where CallSignalingService sends what it relays, and what it answers to a repeated invite.
use videochat.Calls.Signaling.Answer.{to_peer, relay_found, on_relay}
use videochat.Calls.Signaling.Invite.{send, invite_callee, on_invite}
use videochat.Calls.Signaling.Protocol.{
  RelayType, ServerEvent, call_ended, relayed, to_connection, to_socket, Context, Client,
  CallInvite, Relay,
}
use videochat.Calls.Table.{
  busy, CallRow, get_call, find_open_call_for_user, peer_connection_of, find_direct_peer,
}
use videochat.Tables.{User, is_blocked}
use videochat.Prelude.{
  is_null, Option-cases, ℕ, ◌≡◌, refl, ◌≢◌, inl, inr, true, false, Option, none, some, List, [],
  ◌∷◌, arith,
}

peer_back :
    (call : CallRow) (c d : ℕ)
    → c ≢ d
    → peer_connection_of call c ≡ some d
    → peer_connection_of call d ≡ some c
unfolding peer_connection_of
peer_back call c d ne h = ground arith

to_peer_of :
    (o : Option ℕ) (event : ServerEvent) (d : ℕ) (event' : ServerEvent)
    → to_peer o event ≡ to_connection d event' ∷ []
    → o ≡ some d
unfolding to_peer
to_peer_of none event d event' h = cc
to_peer_of (some p) event d event' h = cc

relay_found_back :
    (o : Option CallRow) (c d : ℕ) (kind kind' : RelayType) (p p' : Relay)
    → c ≢ d
    → relay_found c kind p o ≡ to_connection d (relayed kind p.call_id p.content) ∷ []
    → relay_found d kind' p' o ≡ to_connection c (relayed kind' p'.call_id p'.content) ∷ []
unfolding relay_found
relay_found_back none c d kind kind' p p' ne h = cc
relay_found_back (some call) c d kind kind' p p' ne h =
    let peer : peer_connection_of call c ≡ some d = to_peer_of _ _ d _ h in
    rw (peer_back call c d ne peer) (unfold to_peer in refl)

-- If a message about a call from one connection is relayed to another, then a message of any kind
-- about that call from the other connection is relayed to the first, and to nobody else.
pub relay_both_ways :
    (calls : List CallRow) (c d : ℕ) (kind kind' : RelayType) (p p' : Relay)
    → c ≢ d
    → p'.call_id ≡ p.call_id
    → (on_relay calls c kind (some p)).1 ≡ to_connection d (relayed kind p.call_id p.content) ∷ []
    → (on_relay calls d kind' (some p')).1
      ≡ to_connection c (relayed kind' p'.call_id p'.content) ∷ []
unfolding on_relay
relay_both_ways calls c d kind kind' p p' ne same h =
    relay_found_back (get_call calls p'.call_id) c d kind kind' p p' ne (rw same h)

-- An invite that leaves the caller with an open call was to somebody the caller has not blocked.
invited-free :
    (ctx : Context) (calls : List CallRow) (now : ℕ) (client : Client) (caller connection : ℕ)
    (inv : CallInvite) (callee : User)
    → find_open_call_for_user calls caller ≡ none
    → is_null (
        find_open_call_for_user
          (invite_callee ctx calls now client caller connection inv (some callee)).0
          caller)
      ≡ false
    → is_blocked ctx.blocks caller callee.id ≡ false
unfolding invite_callee send
invited-free ctx calls now client caller connection inv callee idle open_ = ground (arith, open_)

-- While the caller is in an open call.
again :
    (ctx : Context) (calls : List CallRow) (now : ℕ) (client : Client) (caller connection : ℕ)
    (inv : CallInvite) (callee : User)
    → is_null (find_open_call_for_user calls caller) ≡ false
    → is_blocked ctx.blocks caller callee.id ≡ false
    → client.is_open ≡ true
    → invite_callee ctx calls now client caller connection inv (some callee)
      ≡ (calls, to_socket (call_ended inv.call_id busy) ∷ [])
unfolding invite_callee send
again ctx calls now client caller connection inv callee open_ free up = ground (arith, open_)

-- An invite that is repeated. The caller had no open call, and the first invite, of whatever outcome,
-- left the caller with one. Then the same invite, sent again over an open socket at any time while
-- nothing else has happened, is answered that the call has ended as busy, and changes nothing: the
-- call of the first invite is still open.
pub repeated_invite_busy :
    (ctx : Context) (calls : List CallRow) (now later : ℕ) (client client' : Client)
    (caller connection connection' : ℕ) (inv : CallInvite)
    → find_open_call_for_user calls caller ≡ none
    → is_null (
        find_open_call_for_user
          (on_invite ctx calls now client caller connection (some inv)).0
          caller)
      ≡ false
    → client'.is_open ≡ true
    → on_invite ctx
        (on_invite ctx calls now client caller connection (some inv)).0
        later
        client'
        caller
        connection'
        (some inv)
      ≡ (
        (on_invite ctx calls now client caller connection (some inv)).0,
        to_socket (call_ended inv.call_id busy) ∷ [],
      )
unfolding on_invite
repeated_invite_busy ctx calls now later client client' caller connection connection' inv idle open_
      up =
    elim (Option-cases
      (find_direct_peer ctx.conversations ctx.memberships ctx.users inv.conversation_id caller)) [
        | inl none_ ↦ rw none_ (absurd (cc (rw none_ at open_)))
        | inr (callee, found) ↦
            let open' = rw found at open_ in
            let free = invited-free ctx calls now client caller connection inv callee idle open' in
            rw found (again ctx _ later client' caller connection' inv callee open' free up)
      ]
