-- ===== src/GroupCalls/Joining.antt =====
-- Starting or joining a group call: `startOrGetGroupCall` of apps/api/src/db/group-calls.ts and
-- `ensureRunningCall` of apps/api/src/group-calls/group-calls.service.ts, while other requests
-- and sweeps run: before each statement of the request, any statements of theirs. The ids of new
-- rows, the clock and whether the SFU makes a room are given for each statement too.
use videochat.GroupCalls.Table.{
  GroupCallRow, is_running, find_running_group_call, get_group_call, insert_group_call,
  end_group_calls, Statement, exec_all,
}
use videochat.Prelude.{
  leb, if◌then◌else◌, ℕ, zero, suc, ◌+◌, Bool, true, false, not, ◌&&◌, Option, none, some, List, [],
  ◌∷◌,
}

abbrev pub group_call_max_participants : ℕ
group_call_max_participants = 20

-- What surrounds the request, by the number of statements that it has run.
pub record World : Type 0 where
  pub others : ℕ → List Statement
  pub new_id : ℕ → ℕ
  pub now : ℕ → ℕ
  pub room_made : ℕ → Bool

pub record Progress : Type 0 where
  pub calls : List GroupCallRow
  pub statements : ℕ
  -- The rooms that the request had the SFU make.
  pub rooms : List ℕ

-- The table when the request's next statement runs.
abbrev pub meet : World → Progress → List GroupCallRow
meet w p = exec_all p.calls (w.others p.statements)

abbrev pub reached : Progress → List GroupCallRow → Progress
reached p calls = record p { calls = calls; statements = p.statements + 1 }

abbrev pub StartResult : Type 0
StartResult = Progress × Option (GroupCallRow × Bool)

-- One attempt, from where the insert did nothing.
abbrev pub found_running : Progress → Option GroupCallRow → StartResult → StartResult
found_running p none next = next
found_running p (some running) next = (p, some (running, false))

abbrev pub after_insert : Progress → Option GroupCallRow → StartResult → StartResult
after_insert p none next = next
after_insert p (some created) next = (p, some (created, true))

abbrev pub inserted : World → Progress → ℕ → ℕ → List GroupCallRow × Option GroupCallRow
inserted w p conversation user =
    insert_group_call (meet w p) (w.new_id p.statements) conversation user (w.now p.statements)

unfoldable pub start_or_get_group_call : ℕ → World → Progress → ℕ → ℕ → StartResult
start_or_get_group_call zero w p conversation user = (p, none)
start_or_get_group_call (suc attempts) w p conversation user =
    let insert = inserted w p conversation user in
    let q = reached p insert.0 in
    let r = reached q (meet w q) in
    let next = start_or_get_group_call attempts w r conversation user in
    after_insert q insert.1 (found_running r (find_running_group_call r.calls conversation) next)

pub data JoinResult : Type 0 where
  joined : (call : GroupCallRow) → (created : Bool) → JoinResult
  full unavailable failed : JoinResult

abbrev pub EnsureResult : Type 0
EnsureResult = Progress × JoinResult

-- The room could not be made: a call that this request created is taken back.
abbrev pub take_back : World → Progress → GroupCallRow → Bool → Progress
take_back w p call true =
    reached p (end_group_calls (meet w p) (call.id ∷ []) (w.now p.statements)).0
take_back w p call false = p

abbrev pub is_still_running : Option GroupCallRow → Bool
is_still_running none = false
is_still_running (some now) = is_running now

abbrev pub with_room : World → Progress → GroupCallRow → Bool → EnsureResult → EnsureResult
with_room w p call created next =
    if is_still_running (get_group_call p.calls call.id) then (p, joined call created) else next

-- The progress once the room is made and the call is read again.
abbrev pub room_progress : World → Progress → GroupCallRow → Progress
room_progress w p call = reached (record p { rooms = call.id ∷ p.rooms }) (meet w p)

abbrev pub ensure_found : World → Progress → GroupCallRow → Bool → EnsureResult → EnsureResult
ensure_found w p call created next =
    if not created && leb group_call_max_participants call.participant_count
    then (p, full)
    else (if w.room_made p.statements
        then with_room w (room_progress w p call) call created next
        else (take_back w p call created, unavailable))

abbrev pub ensure_started :
    World → Progress → Option (GroupCallRow × Bool) → EnsureResult → EnsureResult
ensure_started w p none next = (p, failed)
ensure_started w p (some (call, created)) next = ensure_found w p call created next

-- Where the next attempt of `ensure_running_call` begins.
abbrev pub next_from : World → Progress → Option (GroupCallRow × Bool) → Progress
next_from w p none = p
next_from w p (some (call, created)) = room_progress w p call

unfoldable pub ensure_running_call : ℕ → World → Progress → ℕ → ℕ → EnsureResult
ensure_running_call zero w p conversation user = (p, unavailable)
ensure_running_call (suc attempts) w p conversation user =
    let started = start_or_get_group_call 3 w p conversation user in
    let next = ensure_running_call attempts w (next_from w started.0 started.1) conversation user in
    ensure_started w started.0 started.1 next
