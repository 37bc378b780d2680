-- ===== src/Calls/Signaling/Announce.antt =====
-- `announceEnded` of CallSignalingService.
use videochat.Prelude.{Option, none, some, List, [], ◌∷◌, ◌++◌, if◌then◌else◌}
use videochat.Calls.Table.{CallRow, CallEndReason}
use videochat.Calls.Signaling.Protocol.{call_ended, Effect, to_user, ended_listeners}

-- The publishes and the listeners are each caught, so all of them are attempted.
announce_reason : CallRow → Option CallEndReason → List Effect
announce_reason call none = []
announce_reason call (some reason) =
    to_user call.caller_id (call_ended call.id reason)
    ∷ ((if call.silenced then [] else to_user call.callee_id (call_ended call.id reason) ∷ [])
        ++ ended_listeners call ∷ [])

unfoldable pub announce_ended : CallRow → List Effect
unfolding announce_reason
announce_ended call = announce_reason call call.end_reason

unfoldable pub announce_all : List CallRow → List Effect
announce_all [] = []
announce_all (call ∷ calls) = announce_ended call ++ announce_all calls

-- `if (ended) await this.announceEnded(ended)`.
unfoldable pub announce_if : Option CallRow → List Effect
announce_if none = []
announce_if (some call) = announce_ended call
