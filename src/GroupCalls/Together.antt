-- ===== src/GroupCalls/Together.antt =====
-- What a join of a group call returns (`ensureRunningCall` of
-- apps/api/src/group-calls/group-calls.service.ts).
use mathlib.Core.Path.{subst}
use videochat.GroupCalls.Table.{
  GroupCallRow, is_running_in, find_running_group_call, get_group_call, new_group_call,
  insert_group_call, Statement, exec_all,
}
use videochat.GroupCalls.Joining.{
  group_call_max_participants, World, Progress, meet, reached, StartResult, found_running,
  after_insert, inserted, start_or_get_group_call, joined, full, unavailable, failed, EnsureResult,
  is_still_running, with_room, room_progress, ensure_found, ensure_started, next_from,
  ensure_running_call,
}
use videochat.GroupCalls.Single.{IsSingle, IsSingle-insert, exec_all-IsSingle, exec_all-Keeps}
use videochat.Prelude.{
  leb, ◌==◌, Bool-cases, any, count, find-holds, count-find, find-only, ℕ, zero, suc, ◌≡◌, refl,
  ◌∙◌, inl, inr, Bool, true, not, ◌&&◌, ◌||◌, Option, none, some, List, [], arith,
}

-- The call is in the table, in the conversation, in whatever state it is by now.
record IsRow (calls : List GroupCallRow) (conversation : ℕ) (call : GroupCallRow) : Type 0 where
  row : GroupCallRow
  found : get_group_call calls call.id ≡ some row
  same : row.conversation_id ≡ conversation

abbrev IsRowOrNone : List GroupCallRow → ℕ → Option GroupCallRow → Type 0
IsRowOrNone calls conversation none = Unit
IsRowOrNone calls conversation (some call) = IsRow calls conversation call

IsRow-exec_all :
    (calls : List GroupCallRow) (ss : List Statement) (conversation : ℕ) (call : GroupCallRow)
    → IsRow calls conversation call
    → IsRow (exec_all calls ss) conversation call
IsRow-exec_all calls ss conversation call h =
    let (s, e, f) = exec_all-Keeps calls ss call.id h.row h.found in
    record { row = s; found = e; same = f.same_conversation ∙ h.same }

inserted_row :
    (calls : List GroupCallRow) (id conversation user now : ℕ)
    → IsRowOrNone
        (insert_group_call calls id conversation user now).0
        conversation
        (insert_group_call calls id conversation user now).1
unfolding insert_group_call get_group_call
inserted_row calls id conversation user now =
    elim (Bool-cases (any (λ r. r.id == id || is_running_in conversation r) calls)) [
      | inl e ↦ rw e tt
      | inr e ↦ rw e (record {
        row = new_group_call id conversation user now;
        found = ground arith;
        same = refl;
      })
    ]

running_row :
    (calls : List GroupCallRow) (conversation : ℕ) (o : Option GroupCallRow)
    → IsSingle calls
    → find_running_group_call calls conversation ≡ o
    → IsRowOrNone calls conversation o
unfolding find_running_group_call get_group_call
running_row calls conversation none s e = tt
running_row calls conversation (some call) s e =
    let here : is_running_in conversation call ≡ true =
      find-holds (is_running_in conversation) calls call e in
    record {
      row = call;
      found =
          find-only (is_running_in conversation) (λ r. r.id == call.id) calls call e (ground arith)
            (s.unique call.id);
      same = ground (arith, here);
    }

-- What starting hands out.
abbrev IsStarted : ℕ → StartResult → Type 0
IsStarted conversation (p, none) = IsSingle p.calls
IsStarted conversation (p, some (call, created)) =
    IsSingle p.calls × IsRow p.calls conversation call

found_running-IsStarted :
    (p : Progress) (conversation : ℕ) (o : Option GroupCallRow) (next : StartResult)
    → IsSingle p.calls
    → IsRowOrNone p.calls conversation o
    → IsStarted conversation next
    → IsStarted conversation (found_running p o next)
found_running-IsStarted p conversation none next s here h = h
found_running-IsStarted p conversation (some call) next s here h = (s, here)

after_insert-IsStarted :
    (p : Progress) (conversation : ℕ) (o : Option GroupCallRow) (next : StartResult)
    → IsSingle p.calls
    → IsRowOrNone p.calls conversation o
    → IsStarted conversation next
    → IsStarted conversation (after_insert p o next)
after_insert-IsStarted p conversation none next s here h = h
after_insert-IsStarted p conversation (some call) next s here h = (s, here)

start-IsStarted :
    (attempts : ℕ) (w : World) (p : Progress) (conversation user : ℕ)
    → IsSingle p.calls
    → IsStarted conversation (start_or_get_group_call attempts w p conversation user)
unfolding start_or_get_group_call
start-IsStarted zero w p conversation user s = s
start-IsStarted (suc attempts) w p conversation user s =
    let insert = inserted w p conversation user in
    let q : Progress = reached p insert.0 in
    let r : Progress = reached q (meet w q) in
    let sq : IsSingle q.calls =
      IsSingle-insert (meet w p) (w.new_id p.statements) conversation user (w.now p.statements)
        (exec_all-IsSingle p.calls (w.others p.statements) s) in
    let sr : IsSingle r.calls = exec_all-IsSingle q.calls (w.others q.statements) sq in
    after_insert-IsStarted q conversation insert.1 _ sq
      (inserted_row (meet w p) (w.new_id p.statements) conversation user (w.now p.statements))
      (found_running-IsStarted r conversation (find_running_group_call r.calls conversation) _ sr
        (running_row r.calls conversation _ sr refl)
        (start-IsStarted attempts w r conversation user sr))

-- The call handed out runs, is the only one that runs in the conversation, and has its room.
record IsTogether (p : Progress) (conversation : ℕ) (call : GroupCallRow) : Type 0 where
  row : GroupCallRow
  running : find_running_group_call p.calls conversation ≡ some row
  same_call : row.id ≡ call.id
  only : count (is_running_in conversation) p.calls ≡ 1
  has_room : any (λ room. room == call.id) p.rooms ≡ true

abbrev Ensures : ℕ → EnsureResult → Type 0
Ensures conversation (p, joined call created) = IsTogether p conversation call
Ensures conversation (p, full) = Unit
Ensures conversation (p, unavailable) = Unit
Ensures conversation (p, failed) = Unit

together :
    (p : Progress) (conversation : ℕ) (call : GroupCallRow)
    → IsSingle p.calls
    → IsRow p.calls conversation call
    → is_still_running (get_group_call p.calls call.id) ≡ true
    → any (λ room. room == call.id) p.rooms ≡ true
    → IsTogether p conversation call
unfolding get_group_call find_running_group_call
together p conversation call s here still room =
    let r : GroupCallRow = here.row in
    let there : is_running_in conversation r ≡ true =
      ground (arith, here.same, rw here.found at still) in
    record {
      row = r;
      running =
          find-only (λ x. x.id == call.id) (is_running_in conversation) p.calls r here.found there
            (s.single conversation);
      same_call = ground (arith, find-holds (λ x. x.id == call.id) p.calls r here.found);
      only = omega (
        arith,
        s.single conversation,
        count-find (λ x. x.id == call.id) (is_running_in conversation) p.calls r here.found there,
      );
      has_room = room;
    }

with_room-Ensures :
    (w : World) (p : Progress) (conversation : ℕ) (call : GroupCallRow) (created : Bool)
    (next : EnsureResult)
    → IsSingle p.calls
    → IsRow p.calls conversation call
    → any (λ room. room == call.id) p.rooms ≡ true
    → Ensures conversation next
    → Ensures conversation (with_room w p call created next)
with_room-Ensures w p conversation call created next s here room h =
    elim (Bool-cases (is_still_running (get_group_call p.calls call.id))) [
      | inl still ↦ rw still (together p conversation call s here still room)
      | inr over ↦ rw over h
    ]

ensure_found-Ensures :
    (w : World) (p : Progress) (conversation : ℕ) (call : GroupCallRow) (created : Bool)
    (next : EnsureResult)
    → IsSingle p.calls
    → IsRow p.calls conversation call
    → Ensures conversation next
    → Ensures conversation (ensure_found w p call created next)
ensure_found-Ensures w p conversation call created next s here h =
    elim (Bool-cases (not created && leb group_call_max_participants call.participant_count)) [
      | inl crowded ↦ rw crowded tt
      | inr room ↦ rw room (elim (Bool-cases (w.room_made p.statements)) [
        | inr failed_ ↦ rw failed_ tt
        | inl made ↦ rw made (
            with_room-Ensures w (room_progress w p call) conversation call created next
              (exec_all-IsSingle p.calls (w.others p.statements) s)
              (IsRow-exec_all p.calls (w.others p.statements) conversation call here) (ground arith)
              h)
      ])
    ]

ensure_started-Ensures :
    (w : World) (conversation : ℕ) (started : StartResult) (next : EnsureResult)
    → IsStarted conversation started
    → Ensures conversation next
    → Ensures conversation (ensure_started w started.0 started.1 next)
ensure_started-Ensures w conversation (p, none) next s h = tt
ensure_started-Ensures w conversation (p, some (call, created)) next s h =
    ensure_found-Ensures w p conversation call created next s.0 s.1 h

next_from-IsSingle :
    (w : World) (conversation : ℕ) (started : StartResult)
    → IsStarted conversation started
    → IsSingle (next_from w started.0 started.1).calls
next_from-IsSingle w conversation (p, none) s = s
next_from-IsSingle w conversation (p, some (call, created)) s =
    exec_all-IsSingle p.calls (w.others p.statements) s.0

ensure-Ensures :
    (attempts : ℕ) (w : World) (p : Progress) (conversation user : ℕ)
    → IsSingle p.calls
    → Ensures conversation (ensure_running_call attempts w p conversation user)
unfolding ensure_running_call
ensure-Ensures zero w p conversation user s = tt
ensure-Ensures (suc attempts) w p conversation user s =
    let started = start_or_get_group_call 3 w p conversation user in
    let first : IsStarted conversation started = start-IsStarted 3 w p conversation user s in
    ensure_started-Ensures w conversation started _ first (
      ensure-Ensures attempts w (next_from w started.0 started.1) conversation user
        (next_from-IsSingle w conversation started first))

joined_result :
    (conversation : ℕ) (o : EnsureResult) (call : GroupCallRow) (created : Bool)
    → o.1 ≡ joined call created
    → Ensures conversation o
    → IsTogether o.0 conversation call
joined_result conversation (p, joined c b) call created e h =
    let same : c ≡ call = cc in subst (IsTogether p conversation) same h
joined_result conversation (p, full) call created e h = cc
joined_result conversation (p, unavailable) call created e h = cc
joined_result conversation (p, failed) call created e h = cc

-- A request that has run nothing yet, after any statements of others.
abbrev pub arrives : List Statement → Progress
arrives before = record { calls = exec_all [] before; statements = 0; rooms = [] }

-- When a join returns a call, whatever statements other requests and sweeps run before and in
-- between: at its last statement that call runs in the conversation, no other call runs there,
-- and the SFU was asked for the call's room.
pub joins_the_running_call :
    (before : List Statement) (w : World) (conversation user : ℕ) (call : GroupCallRow)
    (created : Bool)
    → (ensure_running_call 3 w (arrives before) conversation user).1 ≡ joined call created
    → (row : GroupCallRow) × (find_running_group_call
          (ensure_running_call 3 w (arrives before) conversation user).0.calls
          conversation
        ≡ some row)
      × (row.id ≡ call.id)
      × (count
            (is_running_in conversation)
            (ensure_running_call 3 w (arrives before) conversation user).0.calls
          ≡ 1)
      × (any
            (λ room. room == call.id)
            (ensure_running_call 3 w (arrives before) conversation user).0.rooms
          ≡ true)
joins_the_running_call before w conversation user call created e =
    let empty : IsSingle [] = record { unique = λ id. omega arith; single = λ c. omega arith } in
    let t : IsTogether (ensure_running_call 3 w (arrives before) conversation user).0 conversation
        call =
      joined_result conversation (ensure_running_call 3 w (arrives before) conversation user) call
        created e
        (ensure-Ensures 3 w (arrives before) conversation user
          (exec_all-IsSingle [] before empty)) in
    (t.row, t.running, t.same_call, t.only, t.has_room)
