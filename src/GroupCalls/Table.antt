-- ===== src/GroupCalls/Table.antt =====
-- The `group_calls` table: apps/api/src/db/group-calls.ts, with the columns and the unique index of
-- apps/api/src/db/schema.ts. Each function is one statement, and a run of statements is whatever
-- the API nodes do.
use Prim.Native.Nat.{max}
use videochat.Prelude.{
  ◌==◌, if◌then◌else◌, is_null, head?, any, select, find, update, returning, ℕ, Bool, not, ◌&&◌,
  ◌||◌, Option, none, some, List, [], ◌∷◌,
}

pub record GroupCallRow : Type 0 where
  pub id : ℕ
  pub conversation_id : ℕ
  pub started_by : Option ℕ
  pub participant_count : ℕ
  pub peak_participants : ℕ
  pub started_at : ℕ
  pub ended_at : Option ℕ

abbrev pub is_running : GroupCallRow → Bool
is_running r = is_null r.ended_at

abbrev pub is_running_in : ℕ → GroupCallRow → Bool
is_running_in conversation r = r.conversation_id == conversation && is_running r

unfoldable pub find_running_group_call : List GroupCallRow → ℕ → Option GroupCallRow
find_running_group_call calls conversation = find (is_running_in conversation) calls

unfoldable pub get_group_call : List GroupCallRow → ℕ → Option GroupCallRow
get_group_call calls id = find (λ r. r.id == id) calls

abbrev pub new_group_call : ℕ → ℕ → ℕ → ℕ → GroupCallRow
new_group_call id conversation user now = record {
  id = id;
  conversation_id = conversation;
  started_by = some user;
  participant_count = 0;
  peak_participants = 0;
  started_at = now;
  ended_at = none;
}

-- The insert of `startOrGetGroupCall`: the primary key, and one running call for a conversation;
-- nothing is done on a conflict.
unfoldable pub insert_group_call :
    List GroupCallRow → ℕ → ℕ → ℕ → ℕ → List GroupCallRow × Option GroupCallRow
insert_group_call calls id conversation user now =
    if any (λ r. r.id == id || is_running_in conversation r) calls then (calls, none) else (
      new_group_call id conversation user now ∷ calls,
      some (new_group_call id conversation user now),
    )

unfoldable pub list_running_group_calls : List GroupCallRow → List GroupCallRow
list_running_group_calls calls = select is_running calls

abbrev pub count_where : ℕ → ℕ → GroupCallRow → Bool
count_where id n r = r.id == id && is_running r && not (r.participant_count == n)

abbrev pub count_set : ℕ → GroupCallRow → GroupCallRow
count_set n r = record r { participant_count = n; peak_participants = max r.peak_participants n }

unfoldable pub set_group_call_participants :
    List GroupCallRow → ℕ → ℕ → List GroupCallRow × Option GroupCallRow
set_group_call_participants calls id n = (
  update (count_where id n) (count_set n) calls,
  head? (returning (count_where id n) (count_set n) calls),
)

abbrev pub gone_where : List ℕ → GroupCallRow → Bool
gone_where ids r = any (λ id. r.id == id) ids && is_running r

abbrev pub gone_set : ℕ → GroupCallRow → GroupCallRow
gone_set now r = record r { ended_at = some now; participant_count = 0 }

-- Without ids nothing is asked of the database; the statement would change nothing either.
unfoldable pub end_group_calls :
    List GroupCallRow → List ℕ → ℕ → List GroupCallRow × List GroupCallRow
end_group_calls calls ids now =
    (update (gone_where ids) (gone_set now) calls, returning (gone_where ids) (gone_set now) calls)

pub data Statement : Type 0 where
  inserts : (id conversation user now : ℕ) → Statement
  counts : (id participants : ℕ) → Statement
  ends : (ids : List ℕ) → (now : ℕ) → Statement

unfoldable pub exec : List GroupCallRow → Statement → List GroupCallRow
exec calls (inserts id conversation user now) = (insert_group_call calls id conversation user now).0
exec calls (counts id participants) = (set_group_call_participants calls id participants).0
exec calls (ends ids now) = (end_group_calls calls ids now).0

unfoldable pub exec_all : List GroupCallRow → List Statement → List GroupCallRow
exec_all calls [] = calls
exec_all calls (s ∷ ss) = exec_all (exec calls s) ss
