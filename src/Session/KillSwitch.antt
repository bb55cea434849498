-- ===== src/Session/KillSwitch.antt =====
-- MemoryKillSwitch of ai-agent-orch/internal/governance/admin.go, SQLiteKillSwitch of
-- killswitch_store.go, and the two tests of session_policy.go. A scope's identifiers are a list
-- without order, as a Go map of empty structs. A call on the memory is one step under its lock; a
-- call on SQLiteKillSwitch is a statement and then a call on the memory.
pub mod Laws
use Prim.Native.String.{◌++◌ as str_append}
use ai_governance_orchestrat.Prelude.Dict.{lookup, insert}
use ai_governance_orchestrat.Prelude.Strings.{trim_text}
use ai_governance_orchestrat.Prelude.{
  String, Bool, true, false, not, ◌&&◌, ◌||◌, Option, none, some, List, [], ◌∷◌, ◌==◌,
  if◌then◌else◌,
}

unfoldable pub is_member : String → List String → Bool
is_member id [] = false
is_member id (own ∷ ids) = let later = is_member id ids in own == id || later

unfoldable pub without_member : String → List String → List String
without_member id [] = []
without_member id (own ∷ ids) =
    let later = without_member id ids in if own == id then later else own ∷ later

-- MemoryKillSwitch: the identifiers of each scope.
abbrev pub SwitchState : Type 0
SwitchState = List (String × List String)

abbrev pub ids_of : Option (List String) → List String
ids_of none = []
ids_of (some ids) = ids

unfoldable pub is_blocked : SwitchState → String → String → Bool
is_blocked state scope id = is_member id (ids_of (lookup scope state))

unfoldable pub block : String → String → SwitchState → SwitchState
unfolding is_member
block scope id state =
    let ids = ids_of (lookup scope state) in
    insert scope (if is_member id ids then ids else id ∷ ids) state

-- A scope that is missing stays missing.
abbrev pub unblock_in : String → String → SwitchState → Option (List String) → SwitchState
unblock_in scope id state none = state
unblock_in scope id state (some ids) = insert scope (without_member id ids) state

unfoldable pub unblock : String → String → SwitchState → SwitchState
unblock scope id state = unblock_in scope id state (lookup scope state)

-- SQLiteKillSwitch: the rows of the table, and the copy in memory that answers IsBlocked.
pub record SqliteSwitch : Type 0 where
  pub rows : List (String × String)
  pub mem : SwitchState

unfoldable pub has_row : String → String → List (String × String) → Bool
has_row scope id [] = false
has_row scope id ((s, i) ∷ rows) =
    let later = has_row scope id rows in s == scope && i == id || later

unfoldable pub without_row : String → String → List (String × String) → List (String × String)
without_row scope id [] = []
without_row scope id ((s, i) ∷ rows) =
    let later = without_row scope id rows in if s == scope && i == id then later else (s, i) ∷ later

-- The rows, each blocked in turn.
unfoldable pub load_rows : List (String × String) → SwitchState → SwitchState
load_rows [] mem = mem
load_rows ((scope, id) ∷ rows) mem = load_rows rows (block scope id mem)

-- NewSQLiteKillSwitch on a database that holds `rows`.
unfoldable pub open_switch : List (String × String) → SqliteSwitch
unfolding load_rows
open_switch rows = record { rows = rows; mem = load_rows rows [] }

-- The statements of Block and Unblock.
abbrev pub with_row : String → String → SqliteSwitch → SqliteSwitch
with_row scope id switch = record switch {
  rows = if has_row scope id switch.rows then switch.rows else (scope, id) ∷ switch.rows;
}

abbrev pub row_dropped : String → String → SqliteSwitch → SqliteSwitch
row_dropped scope id switch = record switch { rows = without_row scope id switch.rows }

-- Block: whether it failed, and the switch. `broken` says that the statement fails; no lock is held
-- from the statement to the update of the memory, and `meanwhile` is what other calls do between.
unfoldable pub block_row :
    Bool → (SqliteSwitch → SqliteSwitch) → String → String → SqliteSwitch → Bool × SqliteSwitch
unfolding has_row
block_row broken meanwhile scope id switch =
    let met = meanwhile (with_row scope id switch) in
    if broken then (true, switch) else (false, record met { mem = block scope id met.mem })

-- Unblock, likewise.
unfoldable pub unblock_row :
    Bool → (SqliteSwitch → SqliteSwitch) → String → String → SqliteSwitch → Bool × SqliteSwitch
unfolding without_row
unblock_row broken meanwhile scope id switch =
    let met = meanwhile (row_dropped scope id switch) in
    if broken then (true, switch) else (false, record met { mem = unblock scope id met.mem })

-- blockedByKillSwitch: the reason, where a switch is set. The first argument is the setting that
-- stops the whole service.
unfoldable pub blocked_by_kill_switch : Bool → SwitchState → String → Option String
unfolding is_blocked
blocked_by_kill_switch always state agent =
    if always
    then some "kill switch enabled"
    else if is_blocked state "global" "all" || is_blocked state "global" "sessions"
    then some "kill switch enabled"
    else if not (agent == "") && is_blocked state "agent" agent
    then some (str_append "kill switch enabled for agent " agent)
    else none

unfoldable pub blocked_by_client_kill_switch : SwitchState → String → Option String
unfolding is_blocked trim_text
blocked_by_client_kill_switch state header =
    let client = trim_text header in
    if client == ""
    then none
    else if is_blocked state "client" client
    then some (str_append "kill switch enabled for client " client)
    else none
