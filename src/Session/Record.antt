-- ===== src/Session/Record.antt =====
-- SQLiteSessionStore of ai-agent-orch/internal/governance/session_store.go: the table of sessions,
-- keyed by the session's id, in the order of insertion. A call is one step; `broken` says that its
-- statement fails. The columns that no modelled code reads (costs, sizing, intent) are one text,
-- `sizing`; every column is NOT NULL, so the defaults of the queries never apply.
pub mod Laws
use ai_governance_orchestrat.Prelude.Dict.{lookup, insert}
use ai_governance_orchestrat.Prelude.{
  ℕ, String, Bool, true, false, not, Option, none, some, List, [], ◌∷◌, ◌++◌, ◌==◌, leb, ltb,
  if◌then◌else◌,
}

pub record SessionRecord : Type 0 where
  pub session_id : String
  pub parent_session_id : String
  pub actor_subject : String
  pub agent : String
  pub routed_agent : String
  pub classification : String
  pub prompt_sha256 : String
  pub status : String
  pub created_at : ℕ
  pub gateway_token_sha256 : String
  pub runtime_gateway_token_sha256 : String
  pub run_id : String
  pub permission_mode : String
  pub approval_mode : String
  pub workspace_mode : String
  pub use_case_id : String
  pub workflow_id : String
  pub work_item_id : String
  pub work_item_type : String
  pub repo_url : String
  pub branch : String
  pub commit_sha : String
  pub actor_hint : String
  pub source_system : String
  pub sizing : String

abbrev pub Sessions : Type 0
Sessions = List (String × SessionRecord)

pub data StoreError : Type 0 where
  statement_failed session_not_found duplicate_session : StoreError
  invalid_transition : String → String → StoreError

-- The primary key refuses a second record of an id.
abbrev pub create_row :
    SessionRecord → Sessions → Option SessionRecord → Option StoreError × Sessions
create_row rec sessions none = (none, insert rec.session_id rec sessions)
create_row rec sessions (some old) = (some duplicate_session, sessions)

unfoldable pub create : Bool → SessionRecord → Sessions → Option StoreError × Sessions
create broken rec sessions =
    if broken
    then (some statement_failed, sessions)
    else create_row rec sessions (lookup rec.session_id sessions)

-- Get; the sessions are not changed.
unfoldable pub get : Bool → String → Sessions → Option SessionRecord
get broken id sessions = if broken then none else lookup id sessions

-- The test of RowsAffected, on the row that the statement finds.
abbrev pub change_row :
    String
    → (SessionRecord → SessionRecord)
    → Sessions
    → Option SessionRecord
    → Option StoreError × Sessions
change_row id f sessions none = (some session_not_found, sessions)
change_row id f sessions (some rec) = (none, insert id (f rec) sessions)

-- `UPDATE sessions SET … WHERE session_id = ?`.
unfoldable pub change :
    Bool → String → (SessionRecord → SessionRecord) → Sessions → Option StoreError × Sessions
change broken id f sessions =
    if broken
    then (some statement_failed, sessions)
    else change_row id f sessions (lookup id sessions)

abbrev pub with_status : String → SessionRecord → SessionRecord
with_status status rec = record rec { status = status }

unfoldable pub update_status : Bool → String → String → Sessions → Option StoreError × Sessions
update_status broken id status sessions = change broken id (with_status status) sessions

unfoldable pub set_routed_agent : Bool → String → String → Sessions → Option StoreError × Sessions
set_routed_agent broken id agent sessions =
    change broken id (λ rec. record rec { routed_agent = agent }) sessions

unfoldable pub set_runtime_gateway_token_hash :
    Bool → String → String → Sessions → Option StoreError × Sessions
set_runtime_gateway_token_hash broken id hash sessions =
    change broken id (λ rec. record rec { runtime_gateway_token_sha256 = hash }) sessions

-- The transaction of CompareAndSwapStatus on the row that it reads.
swap_row : String → String → String → Sessions → Option SessionRecord → Option StoreError × Sessions
swap_row id from to sessions none = (some session_not_found, sessions)
swap_row id from to sessions (some rec) =
    if not (rec.status == from)
    then (some (invalid_transition from rec.status), sessions)
    else (none, insert id (with_status to rec) sessions)

unfoldable pub compare_and_swap_status :
    Bool → String → String → String → Sessions → Option StoreError × Sessions
unfolding swap_row
compare_and_swap_status broken id from to sessions =
    if broken
    then (some statement_failed, sessions)
    else swap_row id from to sessions (lookup id sessions)

-- The limit of ListRecent and ListRecentAll.
unfoldable pub list_limit : ℕ → ℕ
list_limit limit =
    let at_least = if leb limit 0 then 20 else limit in if ltb 100 at_least then 100 else at_least
