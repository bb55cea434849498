-- ===== src/Audit/Event.antt =====
-- The audit event of ai-agent-orch/internal/audit/store.go, and canonicalHash of hashchain.go.
-- The fields that no modelled code reads or sets alone (costs, durations, provider and model
-- labels, the token usage map) are one text, `other_json`, their JSON members.
-- `recorded_at` counts nanoseconds from Go's zero time, so 0 is the zero time.
use Prim.Native.String.{◌++◌ as str_append}
use ai_governance_orchestrat.Prelude.{
  ℕ, String, Bool, false, Option, none, some, List, [], if◌then◌else◌, nat_eq,
}

pub record Event : Type 0 where
  pub event_id : String
  pub parent_event_id : String
  pub parent_session_id : String
  pub prev_event_hash : String
  pub event_hash : String
  pub session_id : String
  pub event_type : String
  pub actor : String
  pub agent : String
  pub classification : String
  pub reason : String
  pub findings : List String
  pub patch_id : String
  pub patch_decision : String
  pub run_id : String
  pub permission_mode : String
  pub approval_mode : String
  pub workspace_mode : String
  pub correlation_subject : String
  pub trust_level : String
  pub enforcement_mode : String
  pub work_item_id : String
  pub work_item_type : String
  pub commit_sha : String
  pub actor_hint : String
  pub source_system : String
  pub prompt_sha256 : String
  pub runtime : String
  pub runtime_status : String
  pub mcp_tool_name : String
  pub patch_buffer_id : String
  pub patch_file_count : ℕ
  pub event_count : ℕ
  pub patch_count : ℕ
  pub tool_call_count : ℕ
  pub raw_prompt_stored : Bool
  pub raw_response_stored : Bool
  pub other_json : String
  pub recorded_at : ℕ

-- `Event{}`, the zero value.
abbrev pub zero_event : Event
zero_event = record {
  event_id = "";
  parent_event_id = "";
  parent_session_id = "";
  prev_event_hash = "";
  event_hash = "";
  session_id = "";
  event_type = "";
  actor = "";
  agent = "";
  classification = "";
  reason = "";
  findings = [];
  patch_id = "";
  patch_decision = "";
  run_id = "";
  permission_mode = "";
  approval_mode = "";
  workspace_mode = "";
  correlation_subject = "";
  trust_level = "";
  enforcement_mode = "";
  work_item_id = "";
  work_item_type = "";
  commit_sha = "";
  actor_hint = "";
  source_system = "";
  prompt_sha256 = "";
  runtime = "";
  runtime_status = "";
  mcp_tool_name = "";
  patch_buffer_id = "";
  patch_file_count = 0;
  event_count = 0;
  patch_count = 0;
  tool_call_count = 0;
  raw_prompt_stored = false;
  raw_response_stored = false;
  other_json = "";
  recorded_at = 0;
}

-- What the hash is computed with: `json.Marshal` of the event (`none` where it fails) and the hex
-- form of `sha256.Sum256`.
pub record Hasher : Type 0 where
  pub marshal : Event → Option String
  pub sha256_hex : String → String

-- The event with EventHash cleared, which is what the hash covers.
abbrev pub cleared : Event → Event
cleared e = record e { event_hash = "" }

abbrev pub hash_text : Hasher → Option String → String
hash_text h none = "sha256:ERR"
hash_text h (some bytes) = str_append "sha256:" (h.sha256_hex bytes)

unfoldable pub canonical_hash : Hasher → Event → String
canonical_hash h e = hash_text h (h.marshal (cleared e))

-- `event.RecordedAt` is set by the writer where the caller left the zero time.
abbrev pub stamp : ℕ → Event → Event
stamp now e = if nat_eq e.recorded_at 0 then record e { recorded_at = now } else e
