-- ===== src/Tests/Session.antt =====
-- Sessions of a shell with two actors.
use Prim.Native.String.{◌++◌ as str_append}
use ai_governance_orchestrat.Policy.Engine.{Reason}
use ai_governance_orchestrat.Policy.Secrets.{SecretPattern}
use ai_governance_orchestrat.Prelude.Dict.{lookup, insert}
use ai_governance_orchestrat.Prelude.Strings.{lower_text, trim_text}
use ai_governance_orchestrat.Prelude.{
  ℕ, zero, suc, ◌+◌, ◌≤◌, String, Bool, true, false, Option, none, some, List, [], ◌∷◌, ◌++◌, ◌≡◌,
  ◌≢◌, ◌↔◌, ◌⊎◌, refl, inl, inr, arith, eq_iff, ltb, length, ap, sym, ◌∙◌, ◌==◌,
}
use ai_governance_orchestrat.Session.Auth.{
  AuthConfig, Credentials, subject, trust_metadata_from_client, self_reported,
  require_authorized_request, authorized_bearer, valid_actor_label,
}
use ai_governance_orchestrat.Session.Auth.Laws.{
  TrustedName, DevAdmits, trust_metadata_from_client_iff, require_authorized_request-dev,
}
use ai_governance_orchestrat.Session.Creation.{create_session, native_policy}
use ai_governance_orchestrat.Session.Creation.Native.{Absent, create_session-created, IsPermitted}
use ai_governance_orchestrat.Session.Execution.{Runtime, run_execution}
use ai_governance_orchestrat.Session.Execution.Final.{run_execution-failed}
use ai_governance_orchestrat.Session.Gate.{Config, Orchestrator, HttpRequest}
use ai_governance_orchestrat.Session.Handlers.{is_turn_eligible_status, serve_confirm}
use ai_governance_orchestrat.Session.Handlers.Confirming.{
  Ready, confirmed_run, confirm_event, serve_confirm-ready,
}
use ai_governance_orchestrat.Session.KillSwitch.{
  open_switch, block_row, unblock_row, is_blocked, has_row,
}
use ai_governance_orchestrat.Session.KillSwitch.Laws.{
  Agrees, SwitchCall, blocked, unblocked, call_all, open_switch-Agrees, block_row-overlapped,
}
use ai_governance_orchestrat.Session.Patch.{Codec, PatchEnvelope}
use ai_governance_orchestrat.Session.Record.{SessionRecord, Sessions, with_status, list_limit}
use ai_governance_orchestrat.Session.Request.{
  CreateSessionRequest, Body, decoded, WorkItemError, extract_session_id, parse_session_list_limit,
  validate, normalize_runtime_modes, valid_permission_mode, valid_approval_mode,
}
use ai_governance_orchestrat.Session.Request.Checks.{
  extract_session_id-append, parse_session_list_limit-bounds, PermissionMode, ApprovalMode,
  validate-normalized_iff,
}
use ai_governance_orchestrat.Session.Service.{Service, Environment, Execution, Reply, answered}
use ai_governance_orchestrat.Session.Service.Local.{cancel_execution, register_cancel}
use ai_governance_orchestrat.Session.Service.Local.Cancels.{cancel_execution-latest}
use ai_governance_orchestrat.Session.Service.Quiet.{IsQuiet}
use ai_governance_orchestrat.Session.Service.Steady.{Accounted}
use ai_governance_orchestrat.Session.Shell.{
  Call, creation, confirm, message, abort, execution, serve, new_session_service,
}
use ai_governance_orchestrat.Session.Shell.Interleaved.{
  Calls, finished, next, run_calls, run_calls-Accounted,
}
use ai_governance_orchestrat.Session.Shell.Owners.{IsOthers, serve-others_unchanged}

abbrev no_match : SecretPattern → String → Bool
no_match p s = false

abbrev reason_text : Reason → String
reason_text reason = "denied"

abbrev config : Config ℕ
config = record {
  auth = record {
    validate = none;
    dev_token = "dev";
    admin_token = "";
    trusted_client_token = "shared";
  };
  kill_switch = false;
  classification_max = "internal";
  cost_cap_enabled = true;
  session_cost_cap_usd = 5;
  policy = some (native_policy (λ a b. ltb b a) 0 no_match reason_text);
  require_work_item = false;
  resolver = none;
  tool_loop_max = 3;
  local_state_ttl = 100;
  matches = no_match;
  sha256_hex = λ s. s;
}

abbrev orch : Orchestrator
orch = record { route = λ id prompt ctx. some ("builder", "by branch"); accept = λ id agent. true }

abbrev id_at : ℕ → String
id_at zero = "s1"
id_at (suc zero) = "evt1"
id_at (suc (suc n)) = "token1"

-- Nothing fails, and nothing happens between the calls.
abbrev quiet_env : Environment
quiet_env = record { now = 7; new_id = id_at; fails = λ n. false; meanwhile = λ n s. s }

abbrev request_to : String → HttpRequest
request_to path = record {
  method = "POST";
  path = path;
  credentials = record {
    context_subject = "";
    authorization = "Bearer dev";
    local_identity = "alice";
    client = "ai-orch-mcp";
    client_token = "guess";
  };
}

abbrev sent : CreateSessionRequest ℕ
sent = record {
  agent = "builder";
  classification = "internal";
  prompt = "add a test";
  estimated_cost_usd = 2;
  run_id = "";
  permission_mode = " Reviewed ";
  approval_mode = "";
  workspace_mode = "";
  use_case_id = "";
  workflow_id = "";
  work_item_id = "";
  work_item_type = "";
  repo_url = "";
  branch = "";
  commit_sha = "";
  actor_hint = "";
  source_system = "";
  sizing = "";
}

abbrev work_item_text : WorkItemError → String
work_item_text problem = "work item"

abbrev start_service : Service
start_service = new_session_service []

created :
    (create_session config quiet_env
      (request_to "/v1/sessions")
      work_item_text
      (decoded sent)
      start_service).0
    ≡ answered (record { code = 201; text = "created" })
unfolding ai_governance_orchestrat.Session.Creation.create_session
    ai_governance_orchestrat.Session.Service.◌>>=◌ ai_governance_orchestrat.Session.Gate.authorize
    ai_governance_orchestrat.Session.Service.◌>>◌ ai_governance_orchestrat.Session.Service.refuse_if
    ai_governance_orchestrat.Session.Service.pure ai_governance_orchestrat.Session.Gate.admit
    ai_governance_orchestrat.Session.Auth.require_authorized_request
    ai_governance_orchestrat.Session.Auth.actor_from_context
    ai_governance_orchestrat.Session.Service.check_switch
    ai_governance_orchestrat.Session.Service.read
    ai_governance_orchestrat.Session.KillSwitch.blocked_by_kill_switch
    ai_governance_orchestrat.Session.KillSwitch.is_blocked
    ai_governance_orchestrat.Session.KillSwitch.is_member
    ai_governance_orchestrat.Prelude.Dict.lookup
    ai_governance_orchestrat.Session.Shell.new_session_service
    ai_governance_orchestrat.Session.Gate.read_body
    ai_governance_orchestrat.Session.Request.validate ai_governance_orchestrat.Prelude.Dict.insert
    ai_governance_orchestrat.Prelude.Strings.lower_text
    ai_governance_orchestrat.Prelude.Strings.trim_text
    ai_governance_orchestrat.Prelude.Strings.strip_prefix
    ai_governance_orchestrat.Session.Auth.authorized_bearer
    ai_governance_orchestrat.Session.Auth.bearer_matches
    ai_governance_orchestrat.Session.Auth.client_trust
    ai_governance_orchestrat.Session.Auth.label_char
    ai_governance_orchestrat.Session.Auth.trust_metadata_from_client
    ai_governance_orchestrat.Session.Auth.valid_actor_label
    ai_governance_orchestrat.Session.Creation.check_decision
    ai_governance_orchestrat.Session.Creation.check_request
    ai_governance_orchestrat.Session.Creation.check_work_item
    ai_governance_orchestrat.Session.Creation.create_checked
    ai_governance_orchestrat.Session.Creation.created_event
    ai_governance_orchestrat.Session.Creation.created_record
    ai_governance_orchestrat.Session.Creation.evaluate_policy
    ai_governance_orchestrat.Session.Creation.native_policy
    ai_governance_orchestrat.Session.Creation.persist
    ai_governance_orchestrat.Session.Creation.policy_request
    ai_governance_orchestrat.Session.Gate.session_event ai_governance_orchestrat.Session.Gate.trust
    ai_governance_orchestrat.Session.Record.create
    ai_governance_orchestrat.Session.Request.enforce_work_item_context
    ai_governance_orchestrat.Session.Request.normalize_runtime_modes
    ai_governance_orchestrat.Session.Request.resolve_session_context
    ai_governance_orchestrat.Session.Request.valid_approval_mode
    ai_governance_orchestrat.Session.Request.valid_permission_mode
    ai_governance_orchestrat.Session.Service.Local.remember_event_id
    ai_governance_orchestrat.Session.Service.Local.remember_prompt
    ai_governance_orchestrat.Session.Service.answer ai_governance_orchestrat.Session.Service.append
    ai_governance_orchestrat.Session.Service.attempt ai_governance_orchestrat.Session.Service.write
    ai_governance_orchestrat.Policy.Engine.evaluate
    ai_governance_orchestrat.Policy.Classification.classification_exceeds_max
    ai_governance_orchestrat.Policy.Secrets.detect_secrets
created = refl

new_here : Absent "s1" start_service
unfolding new_session_service lookup
new_here = refl

create_session-created_example :
    (given : CreateSessionRequest ℕ) × (decoded sent ≡ decoded given)
    × IsPermitted
        (λ a b. ltb b a)
        0
        no_match
        reason_text
        config
        refl
        quiet_env
        (request_to "/v1/sessions")
        (λ n s h. h)
        given
create_session-created_example =
    create_session-created (λ a b. ltb b a) 0 no_match reason_text config refl quiet_env
      (request_to "/v1/sessions") (λ n s h. h) work_item_text (decoded sent) start_service new_here
      (inl (record { code = 201; text = "created" }, created, refl))

extract_session_id-append_example :
    extract_session_id
      (str_append "/v1/sessions/" (str_append "s1" "/confirm"))
      "/v1/sessions/"
      "/confirm"
    ≡ "s1"
extract_session_id-append_example = extract_session_id-append "/v1/sessions/" "s1" "/confirm"

parse_session_list_limit-bounds_example :
    let limit = parse_session_list_limit (λ s. some 500) "500" in
    (1 ≤ limit) × (limit ≤ 100) × (list_limit limit ≡ limit)
parse_session_list_limit-bounds_example = parse_session_list_limit-bounds (λ s. some 500) "500"

validate-normalized_iff_example : (validate (normalize_runtime_modes sent) ≡ none) ↔ (
    (sent.agent ≢ "")
    × (sent.classification ≢ "")
    × (sent.prompt ≢ "")
    × ((lower_text (trim_text sent.permission_mode) ≡ "")
        ⊎ PermissionMode (lower_text (trim_text sent.permission_mode)))
    × ((lower_text (trim_text sent.approval_mode) ≡ "")
        ⊎ ApprovalMode (lower_text (trim_text sent.approval_mode))))
validate-normalized_iff_example = validate-normalized_iff sent

trust_metadata_from_client_iff_example :
    (trust_metadata_from_client "shared" "AI-Orch-MCP" "shared " ≢ self_reported) ↔ (
      ((◌≡◌ {A = String} "shared" "") ⊎ (trim_text "shared " ≡ "shared"))
      × TrustedName (lower_text (trim_text "AI-Orch-MCP")))
trust_metadata_from_client_iff_example =
    trust_metadata_from_client_iff "shared" "AI-Orch-MCP" "shared "

require_authorized_request-dev_example :
    (require_authorized_request config.auth (request_to "/v1/sessions").credentials
      ≡ subject "alice")
    ↔ DevAdmits config.auth (request_to "/v1/sessions").credentials "alice"
require_authorized_request-dev_example =
    require_authorized_request-dev config.auth (request_to "/v1/sessions").credentials "alice" refl
      refl

let_in :
    require_authorized_request config.auth (request_to "/v1/sessions").credentials ≡ subject "alice"
unfolding require_authorized_request
let_in = refl

abbrev switch_calls : List SwitchCall
switch_calls =
    blocked false "global" "all"
    ∷ blocked true "agent" "builder"
    ∷ unblocked false "global" "all"
    ∷ []

open_switch-Agrees_example : Agrees (call_all switch_calls (open_switch (("client", "cli") ∷ [])))
open_switch-Agrees_example = open_switch-Agrees (("client", "cli") ∷ []) switch_calls

block_row-overlapped_example :
    let switch = open_switch [] in
    let stuck =
      (block_row false
        (λ s. (unblock_row false (λ t. t) "global" "all" s).1)
        "global"
        "all"
        switch).1 in
    let lost =
      (unblock_row false
        (λ s. (block_row false (λ t. t) "global" "all" s).1)
        "global"
        "all"
        switch).1 in
    (is_blocked stuck.mem "global" "all" ≡ true)
    × (has_row "global" "all" stuck.rows ≡ false)
    × (is_blocked (open_switch stuck.rows).mem "global" "all" ≡ false)
    × (is_blocked lost.mem "global" "all" ≡ false)
    × (has_row "global" "all" lost.rows ≡ true)
block_row-overlapped_example = block_row-overlapped "global" "all" (open_switch [])

abbrev good_path : String
good_path = "src/a..b.go"

abbrev envelope : PatchEnvelope
envelope = record {
  patch_id = "p1";
  session_id = "";
  buffer_id = "";
  files =
      record {
        path = "a.go";
        new_content = "package a";
        original_content = "";
        proposed_content_hash = "";
        other_json = "";
      }
      ∷ [];
  other_json = "";
}

abbrev codec : Codec
codec = record {
  parse = λ s. some envelope;
  marshal = λ e. some e.buffer_id;
  content_hash = λ s. s;
  buffer_hash = λ s. "00";
}

abbrev bobs : SessionRecord
bobs = record {
  session_id = "s1";
  parent_session_id = "";
  actor_subject = "bob";
  agent = "builder";
  routed_agent = "builder";
  classification = "internal";
  prompt_sha256 = "";
  status = "aborted";
  created_at = 1;
  gateway_token_sha256 = "";
  runtime_gateway_token_sha256 = "";
  run_id = "";
  permission_mode = "reviewed";
  approval_mode = "manual";
  workspace_mode = "";
  use_case_id = "";
  workflow_id = "";
  work_item_id = "";
  work_item_type = "";
  repo_url = "";
  branch = "";
  commit_sha = "";
  actor_hint = "";
  source_system = "";
  sizing = "";
}

abbrev stored_service : Service
stored_service = record start_service { sessions = ("s1", bobs) ∷ [] }

cancel_execution-latest_example :
    (cancel_execution 100 107 "s1"
      (register_cancel 9 "s1" 1 (register_cancel 3 "s1" 0 start_service))).cancelled
    ≡ 1 ∷ start_service.cancelled
cancel_execution-latest_example =
    cancel_execution-latest 100 3 9 107 "s1" 0 1 start_service (λ e. cc) (inr (omega arith))

-- An execution of the aborted session, whose dispatch fails.
abbrev runtime : Runtime
runtime = record {
  dispatch = λ x token. none;
  codec = codec;
  error_text = λ e. "refused";
  patch_id_of = λ s. s;
  permission_of = λ s. (s, s);
  file_write_of = λ s. (s, s, s);
}

abbrev bobs_run : Execution
bobs_run = record { session_id = "s1"; agent = "builder"; prompt = "add a test" }

nothing_between : IsQuiet quiet_env
nothing_between n s = refl

is_stored : lookup "s1" stored_service.sessions ≢ none
unfolding lookup
is_stored e = cc

run_execution-failed_example :
    (rec : SessionRecord) × (lookup "s1"
        (run_execution config runtime quiet_env bobs_run stored_service).1.sessions
      ≡ some rec)
    × (rec.status ≡ "failed")
    × (is_turn_eligible_status rec.status ≡ true)
run_execution-failed_example =
    run_execution-failed quiet_env nothing_between config runtime bobs_run stored_service (λ e. cc)
      refl (λ token. refl) is_stored

abbrev alices_abort : HttpRequest
alices_abort = record {
  method = "POST";
  path = "/v1/sessions/s1/abort";
  credentials = record (request_to "").credentials { context_subject = "alice" };
}

bobs_only :
    (rec : SessionRecord)
    → lookup "s1" stored_service.sessions ≡ some rec
    → rec.actor_subject ≢ "alice"
unfolding lookup
bobs_only rec e h = cc

is_bobs : IsOthers quiet_env nothing_between config orch alices_abort stored_service abort
unfolding ai_governance_orchestrat.Session.Request.extract_session_id
    ai_governance_orchestrat.Prelude.Strings.strip_prefix
    ai_governance_orchestrat.Prelude.Strings.strip_suffix
    ai_governance_orchestrat.Session.Auth.actor_from_context
is_bobs = bobs_only

serve-others_unchanged_example :
    ((serve config orch quiet_env alices_abort abort stored_service).1.sessions
      ≡ stored_service.sessions)
    × ((serve config orch quiet_env alices_abort abort stored_service).1.executions
        ≡ stored_service.executions)
serve-others_unchanged_example =
    serve-others_unchanged quiet_env nothing_between config orch alices_abort abort stored_service
      is_bobs

-- A creation, a message, a confirmation between whose steps another is served, and the execution.
abbrev confirmed_between : ℕ → Calls ℕ
confirmed_between n =
    next 7 id_at (λ k. false) (request_to "/v1/sessions/s1/confirm") (confirm (decoded "builder"))
      (λ k. finished) finished

abbrev calls : Calls ℕ
calls =
    next 7 id_at (λ k. false) (request_to "/v1/sessions") (creation work_item_text (decoded sent))
      (λ k. finished)
      (next 7 id_at (λ k. false) (request_to "/v1/sessions/s1/messages")
        (message bobs (decoded "add a test")) (λ k. finished)
        (next 7 id_at (λ k. false) (request_to "/v1/sessions/s1/confirm")
          (confirm (decoded "builder")) confirmed_between
          (next 7 id_at (λ k. false) (request_to "") (execution runtime bobs_run) (λ k. finished)
            finished)))

run_calls-Accounted_example : Accounted (run_calls config orch calls (new_session_service []))
run_calls-Accounted_example = run_calls-Accounted config orch calls []

-- A session of alice that waits for its confirmation.
abbrev alices : SessionRecord
alices = record bobs { actor_subject = "alice"; status = "awaiting_confirmation" }

abbrev waiting_service : Service
waiting_service = record start_service {
  sessions = ("s1", alices) ∷ [];
  prompts = ("s1", ("add a test", 5)) ∷ [];
}

is_ready :
    Ready 7 id_at config orch
      (request_to "/v1/sessions/s1/confirm")
      "alice"
      "builder"
      "add a test"
      alices
      waiting_service
unfolding ai_governance_orchestrat.Session.Request.extract_session_id
    ai_governance_orchestrat.Prelude.Strings.strip_prefix
    ai_governance_orchestrat.Prelude.Strings.strip_suffix
    ai_governance_orchestrat.Session.Auth.actor_from_context require_authorized_request lookup
    ai_governance_orchestrat.Session.KillSwitch.blocked_by_kill_switch
    ai_governance_orchestrat.Session.KillSwitch.is_blocked
    ai_governance_orchestrat.Session.KillSwitch.is_member
    ai_governance_orchestrat.Session.Shell.new_session_service
    ai_governance_orchestrat.Session.Service.Local.prompt_for_session
    ai_governance_orchestrat.Prelude.Text.contains
is_ready = (refl, let_in, refl, refl, refl, refl, refl, refl, refl, refl, refl)

serve_confirm-ready_example :
    let request = request_to "/v1/sessions/s1/confirm" in
    let (ending, after) =
      serve_confirm config orch quiet_env request (decoded "builder") waiting_service in
    (ending ≡ answered (record { code = 200; text = "confirmed" }))
    × (after.executions
        ≡ waiting_service.executions
          ++ confirmed_run 7 id_at config orch request "alice" "builder" "add a test" alices
              waiting_service
            ∷ [])
    × (after.log
        ≡ waiting_service.log
          ++ confirm_event 7 id_at config orch request "alice" "builder" "add a test" alices
              waiting_service
            ∷ [])
    × ((final : SessionRecord) × (lookup
            (extract_session_id request.path "/v1/sessions/" "/confirm")
            after.sessions
          ≡ some final)
        × (final.status ≡ "running"))
serve_confirm-ready_example =
    serve_confirm-ready 7 id_at config orch (request_to "/v1/sessions/s1/confirm") "alice" "builder"
      "add a test" alices waiting_service is_ready
