-- ===== src/Session/Request.antt =====
-- The requests of ai-agent-orch/internal/governance and their checks: CreateSessionRequest and its
-- methods in sessions.go, and extractSessionID of messages.go. What encoding/json makes of a body is
-- an argument, a `Body`.
pub mod Checks
use Prim.Native.String.{◌++◌ as str_append}
use ai_governance_orchestrat.Prelude.Strings.{lower_text, trim_text, strip_prefix, strip_suffix}
use ai_governance_orchestrat.Prelude.Text.{codes, contains}
use ai_governance_orchestrat.Prelude.{
  ℕ, String, Bool, true, false, not, ◌&&◌, ◌||◌, Option, none, some, ◌==◌, leb, ltb, if◌then◌else◌,
}

-- The costs and sizes that the service only stores are one text, `sizing`.
pub record CreateSessionRequest (Usd : Type 0) : Type 0 where
  pub agent : String
  pub classification : String
  pub prompt : String
  pub estimated_cost_usd : Usd
  pub run_id : String
  pub permission_mode : String
  pub approval_mode : String
  pub workspace_mode : String
  pub use_case_id : String
  pub workflow_id : String
  pub work_item_id : String
  pub work_item_type : String
  pub repo_url : String
  pub branch : String
  pub commit_sha : String
  pub actor_hint : String
  pub source_system : String
  pub sizing : String

-- The fields that a resolver finds, and that a session passes to the router.
pub record SessionContext : Type 0 where
  pub repo_url : String
  pub branch : String
  pub commit_sha : String
  pub work_item_id : String
  pub work_item_type : String
  pub actor_hint : String
  pub source_system : String

pub data Body (A : Type 0) : Type 0 where
  decoded : A → Body A
  undecodable : String → Body A

-- The text of `path` between the prefix and the suffix, the empty text where it has not both.
abbrev pub or_nothing : Option String → String
or_nothing none = ""
or_nothing (some text) = text

abbrev pub before_suffix : String → Option String → String
before_suffix suffix none = ""
before_suffix suffix (some trimmed) = or_nothing (strip_suffix trimmed suffix)

unfoldable pub extract_session_id : String → String → String → String
extract_session_id path prefix suffix = before_suffix suffix (strip_prefix path prefix)

-- The limit of a session list; `atoi` is strconv.Atoi, with a number below 0 as 0.
unfoldable pub parse_session_list_limit : (String → Option ℕ) → String → ℕ
parse_session_list_limit atoi value = if value == "" then 20 else elim (atoi value) [
  | none ↦ 20
  | some limit ↦ if leb limit 0 then 20 else if ltb 100 limit then 100 else limit
]

unfoldable pub valid_permission_mode : String → Bool
valid_permission_mode value =
    value == "read_only" || value == "reviewed" || value == "auto_apply" || value == "full_access"

unfoldable pub valid_approval_mode : String → Bool
valid_approval_mode value =
    value == "manual" || value == "auto_approved" || value == "yolo" || value == "self_reported"

or_else : String → String → String
or_else given resolved = if given == "" then resolved else given

is_protected : String → Bool
is_protected branch =
    branch == "main"
    || branch == "master"
    || branch == "trunk"
    || branch == "develop"
    || branch == "development"

-- The errors of enforceWorkItemContext, with the values that their texts are formatted from.
pub data WorkItemError : Type 0 where
  work_item_required : WorkItemError
  branch_required : String → WorkItemError
  protected_branch branch_lacks_item : String → String → WorkItemError

module _ {Usd : Type 0} where
  unfoldable pub normalize_runtime_modes : CreateSessionRequest Usd → CreateSessionRequest Usd
  normalize_runtime_modes r =
      let permission = lower_text (trim_text r.permission_mode) in
      let approval = lower_text (trim_text r.approval_mode) in
      let or_reviewed = if permission == "" then "reviewed" else permission in
      let by_permission = if or_reviewed == "full_access" then "yolo" else "manual" in
      record r {
        permission_mode = or_reviewed;
        approval_mode = if approval == "" then by_permission else approval;
        workspace_mode = lower_text (trim_text r.workspace_mode);
      }

  -- The error of `validate`.
  unfoldable pub validate : CreateSessionRequest Usd → Option String
  validate r =
      if r.agent == ""
      then some "agent is required"
      else if r.classification == ""
      then some "classification is required"
      else if r.prompt == ""
      then some "prompt is required"
      else if not (valid_permission_mode r.permission_mode)
      then some "permission_mode must be one of read_only, reviewed, auto_apply or full_access"
      else if not (valid_approval_mode r.approval_mode)
      then some "approval_mode must be one of manual, auto_approved, yolo or self_reported"
      else none

  filled : CreateSessionRequest Usd → SessionContext → CreateSessionRequest Usd
  unfolding or_else
  filled r resolved = record r {
    repo_url = or_else r.repo_url resolved.repo_url;
    branch = or_else r.branch resolved.branch;
    commit_sha = or_else r.commit_sha resolved.commit_sha;
    work_item_id = or_else r.work_item_id resolved.work_item_id;
    work_item_type = or_else r.work_item_type resolved.work_item_type;
    actor_hint = or_else r.actor_hint resolved.actor_hint;
    source_system = or_else r.source_system resolved.source_system;
  }

  -- resolveSessionContext, on what the resolver finds, if there is one. Where every field is given
  -- the resolver is not asked, which gives the same request.
  unfoldable pub resolve_session_context :
      Option SessionContext → CreateSessionRequest Usd → CreateSessionRequest Usd
  unfolding filled
  resolve_session_context none r = r
  resolve_session_context (some resolved) r = filled r resolved

  unfoldable pub enforce_work_item_context : Bool → CreateSessionRequest Usd → Option WorkItemError
  unfolding is_protected
  enforce_work_item_context required r =
      let item = trim_text r.work_item_id in
      let branch = trim_text r.branch in
      if not required
      then none
      else if item == ""
      then some work_item_required
      else if branch == ""
      then some (branch_required item)
      else if is_protected (lower_text branch)
      then some (protected_branch branch item)
      else if not (contains (codes (lower_text branch)) (codes (lower_text item)))
      then some (branch_lacks_item branch item)
      else none
