-- ===== src/GroupCalls/Examples.antt =====
-- Group calls at concrete inputs: user 1 starts a call in conversation 10, and a sweep ends it
-- before the room is there.
use videochat.GroupCalls.Table.{
  GroupCallRow, is_running_in, find_running_group_call, get_group_call, new_group_call,
  insert_group_call, end_group_calls, Statement, ends, exec, exec_all,
}
use videochat.GroupCalls.Joining.{World, start_or_get_group_call, joined, ensure_running_call}
use videochat.GroupCalls.Together.{arrives, joins_the_running_call}
use videochat.Prelude.{◌==◌, any, count, ℕ, zero, suc, ◌+◌, ◌≡◌, refl, true, some, List, [], ◌∷◌}

abbrev swept : ℕ → List Statement
swept zero = []
swept (suc zero) = ends (100 ∷ []) 5000 ∷ []
swept (suc (suc n)) = []

abbrev world : World
world = record { others = swept; new_id = λ n. 100 + n; now = λ n. 1000 + n; room_made = λ n. true }

abbrev second : GroupCallRow
second = new_group_call 102 10 1 1002

-- The first call is over when its room is there, so the request starts another.
starts_over : (ensure_running_call 3 world (arrives []) 10 1).1 ≡ joined second true
unfolding ensure_running_call start_or_get_group_call insert_group_call find_running_group_call
    get_group_call exec_all exec end_group_calls
starts_over = refl

joins_the_running_call_example :
    (row : GroupCallRow) × (find_running_group_call
        (ensure_running_call 3 world (arrives []) 10 1).0.calls
        10
      ≡ some row)
    × (row.id ≡ 102)
    × (count (is_running_in 10) (ensure_running_call 3 world (arrives []) 10 1).0.calls ≡ 1)
    × (any (λ room. room == 102) (ensure_running_call 3 world (arrives []) 10 1).0.rooms ≡ true)
joins_the_running_call_example = joins_the_running_call [] world 10 1 second true starts_over
