-- ===== src/Audit/Sqlite.antt =====
-- SQLiteStore of ai-agent-orch/internal/audit/sqlite.go: the events table in rowid order and the
-- table of chain heads. A transaction is one step, since SQLite runs one writer at a time; a
-- statement that fails rolls it back. NULL columns do not arise, since every insert gives texts.
pub mod Order
pub mod Append
use ai_governance_orchestrat.Prelude.Dict.{lookup, insert}
use ai_governance_orchestrat.Prelude.{
  ℕ, String, Bool, true, false, not, ◌||◌, Option, none, some, List, [], ◌∷◌, ◌++◌, ◌==◌,
  if◌then◌else◌, nat_eq, get_last?,
}
use ai_governance_orchestrat.Audit.Event.{Event, stamp}
use ai_governance_orchestrat.Audit.Timestamp.{sorts_before}

pub record Sqlite : Type 0 where
  pub rows : List Event
  pub heads : List (String × String)

-- The statements that can fail for reasons outside the program.
pub data Stage : Type 0 where
  begin_tx load_head seed_head update_head encode insert_row query_rows commit_tx : Stage

abbrev stage_number : Stage → ℕ
stage_number begin_tx = 0
stage_number load_head = 1
stage_number seed_head = 2
stage_number update_head = 3
stage_number encode = 4
stage_number insert_row = 5
stage_number query_rows = 6
stage_number commit_tx = 7

-- What a call meets outside the program: the clock, a cancelled context, a statement that fails.
pub record Env : Type 0 where
  pub now : ℕ
  pub cancelled : Bool
  pub fault : Option Stage

abbrev pub fails : Env → Stage → Bool
fails env stage = elim env.fault [
  | none ↦ false
  | some broken ↦ nat_eq (stage_number broken) (stage_number stage)
]

pub data AuditError : Type 0 where
  event_id_required event_type_required session_required : AuditError
  cancelled_context prev_differs duplicate_event_id append_conflict : AuditError
  failed_at : Stage → AuditError

pub data Result (A : Type 0) : Type 0 where
  ok : A → Result A
  err : AuditError → Result A

unfoldable pub has_event_id : String → List Event → Bool
has_event_id id [] = false
has_event_id id (e ∷ rows) = e.event_id == id || has_event_id id rows

-- insertEvent; `event_id` is the primary key.
unfoldable pub insert_event : Env → Sqlite → Event → Result Event × Sqlite
insert_event env s e =
    if e.event_id == ""
    then (err event_id_required, s)
    else if e.event_type == ""
    then (err event_type_required, s)
    else if env.cancelled
    then (err cancelled_context, s)
    else if fails env encode
    then (err (failed_at encode), s)
    else if fails env insert_row
    then (err (failed_at insert_row), s)
    else if has_event_id e.event_id s.rows
    then (err duplicate_event_id, s)
    else (ok (stamp env.now e), record s { rows = s.rows ++ stamp env.now e ∷ [] })

-- WHERE session_id = ?
unfoldable pub rows_of : String → List Event → List Event
rows_of session [] = []
rows_of session (e ∷ rows) =
    let rest = rows_of session rows in if e.session_id == session then e ∷ rest else rest

-- One row of ORDER BY recorded_at ASC, rowid ASC: behind the rows that sort no later.
place : Event → List Event → List Event
place e [] = e ∷ []
place e (x ∷ xs) =
    let rest = place e xs in
    if sorts_before x.recorded_at e.recorded_at then x ∷ rest else e ∷ x ∷ xs

sort_onto : List Event → List Event → List Event
unfolding place
sort_onto sorted [] = sorted
sort_onto sorted (e ∷ rows) = sort_onto (place e sorted) rows

-- The rows of a session in the order of the queries.
unfoldable pub session_rows : String → Sqlite → List Event
unfolding sort_onto rows_of
session_rows session s = sort_onto [] (rows_of session s.rows)

unfoldable pub events_by_session : Env → Sqlite → String → Result (List Event)
events_by_session env s session =
    if session == ""
    then err session_required
    else if env.cancelled
    then err cancelled_context
    else if fails env query_rows
    then err (failed_at query_rows)
    else ok (session_rows session s)

abbrev pub last_hash : Option Event → String
last_hash none = ""
last_hash (some e) = e.event_hash

-- latestSessionHashTx: DESC with LIMIT 1 is the last row of the ascending order.
unfoldable pub latest_session_hash : String → Sqlite → String
latest_session_hash session s = last_hash (get_last? (session_rows session s))

-- INSERT OR IGNORE INTO audit_chain_heads
abbrev seed : String → String → List (String × String) → List (String × String)
seed session head heads = elim (lookup session heads) [
  | none ↦ insert session head heads
  | some h ↦ heads
]

abbrev head_is : String → Option String → Bool
head_is expected none = false
head_is expected (some head) = head == expected

pub data Appended : Type 0 where
  appended : Event → Appended
  not_appended : Appended
  failed : AuditError → Appended

abbrev pub after_insert : Env → Sqlite → Result Event × Sqlite → Appended × Sqlite
after_insert env s (err e, s') = (failed e, s)
after_insert env s (ok persisted, s') =
    if fails env commit_tx then (failed (failed_at commit_tx), s) else (appended persisted, s')

abbrev pub direct : Result Event × Sqlite → Appended × Sqlite
direct (err e, s) = (failed e, s)
direct (ok persisted, s) = (appended persisted, s)

-- The transaction of AppendIfPrev (none begins under a cancelled context), for a session's event that links to `expected`.
append_tx : Env → Sqlite → Event → String → Appended × Sqlite
append_tx env s e expected =
    let seeded = seed e.session_id (latest_session_hash e.session_id s) s.heads in
    if env.cancelled || fails env begin_tx
    then (failed (failed_at begin_tx), s)
    else if fails env load_head
    then (failed (failed_at load_head), s)
    else if fails env seed_head
    then (failed (failed_at seed_head), s)
    else if fails env update_head
    then (failed (failed_at update_head), s)
    else if not (head_is expected (lookup e.session_id seeded))
    then (not_appended, s)
    else after_insert env s
        (insert_event env (record s { heads = insert e.session_id e.event_hash seeded }) e)

unfoldable pub append_if_prev : Env → Sqlite → Event → String → Appended × Sqlite
unfolding append_tx insert_event
append_if_prev env s e expected =
    if e.session_id == ""
    then direct (insert_event env s e)
    else if not (e.prev_event_hash == expected)
    then (failed prev_differs, s)
    else append_tx env s e expected
