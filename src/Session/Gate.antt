-- ===== src/Session/Gate.antt =====
-- What the handlers of ai-agent-orch/internal/governance do before their own work, and the events
-- that they append: the method, the credentials, the session's id in the path, its owner, the body.
-- Of an answer whose text the code formats with an error, the fixed part is kept.
pub mod Steady
use ai_governance_orchestrat.Audit.Event.{Event, zero_event}
use ai_governance_orchestrat.Policy.Engine.{Request}
use ai_governance_orchestrat.Policy.Secrets.{SecretPattern}
use ai_governance_orchestrat.Prelude.Text.{codes, contains}
use ai_governance_orchestrat.Prelude.{
  ℕ, ◌+◌, String, Bool, true, false, not, ◌||◌, Option, none, some, List, [], ◌∷◌, ◌==◌,
  if◌then◌else◌,
}
use ai_governance_orchestrat.Session.Auth.{
  AuthConfig, Credentials, AuthOutcome, subject, refused, require_authorized_request,
  actor_from_context, TrustMetadata, trust_metadata_from_client,
}
use ai_governance_orchestrat.Session.Record.{SessionRecord, get}
use ai_governance_orchestrat.Session.Request.{
  SessionContext, Body, decoded, undecodable, extract_session_id,
}
use ai_governance_orchestrat.Session.Service.{
  Service, Environment, Handler, pure, answer, read, ◌>>=◌, ◌>>◌, refuse_if, deny, denied_event,
}

-- What a policy engine answers; its reason is a text.
pub record PolicyDecision : Type 0 where
  pub allowed : Bool
  pub reason : String
  pub findings : List String

-- SessionServiceConfig. `policy` is the configured engine, which gives none for its error;
-- `resolver` is what the context resolver finds; `matches` and `sha256_hex` are the regular
-- expressions and the hash of Go's libraries.
pub record Config (Usd : Type 0) : Type 0 where
  pub auth : AuthConfig
  pub kill_switch : Bool
  pub classification_max : String
  pub cost_cap_enabled : Bool
  pub session_cost_cap_usd : Usd
  pub policy : Option (Request Usd → Option PolicyDecision)
  pub require_work_item : Bool
  pub resolver : Option SessionContext
  pub tool_loop_max : ℕ
  pub local_state_ttl : ℕ
  pub matches : SecretPattern → String → Bool
  pub sha256_hex : String → String

-- OrchestratorClient: the specialist and the reason, or the error; whether a session was accepted.
pub record Orchestrator : Type 0 where
  pub route : String → String → SessionContext → Option (String × String)
  pub accept : String → String → Bool

pub record HttpRequest : Type 0 where
  pub method : String
  pub path : String
  pub credentials : Credentials

module _ {Usd : Type 0} (config : Config Usd) (env : Environment) (request : HttpRequest) where
  -- RequireAuthorizedRequest, and the actor of the request it returns; a refusal takes the call n.
  unfoldable pub admit : ℕ → AuthOutcome → Handler String
  admit n (subject name) = pure (actor_from_context name)
  admit n (refused why code text) =
      let actor = actor_from_context request.credentials.context_subject in
      deny env n (denied_event (env.new_id 0) actor why [] "") code text

  unfoldable pub authorize : ℕ → Handler String
  authorize n = do
    refuse_if (not (request.method == "POST")) 405 "method not allowed"
    admit n (require_authorized_request config.auth request.credentials)

  unfoldable pub session_id_for : String → Handler String
  session_id_for suffix =
      let id = extract_session_id request.path "/v1/sessions/" suffix in
      do
        refuse_if (id == "" || contains (codes id) (codes "/")) 400 "valid session ID is required"
        pure id

  unfoldable pub trust : TrustMetadata
  trust =
      trust_metadata_from_client config.auth.trusted_client_token request.credentials.client
        request.credentials.client_token

unfoldable pub read_body : {A : Type 0} → Body A → Handler A
read_body (decoded a) = pure a
read_body (undecodable problem) = answer 400 "invalid request body"

-- The session's record, for its owner alone; the read is the call n.
unfoldable pub check_owner : String → Option SessionRecord → Handler SessionRecord
check_owner actor none = answer 404 "session not found"
check_owner actor (some rec) =
    if rec.actor_subject == actor then pure rec else answer 403 "session ownership mismatch"

unfoldable pub owned : Environment → ℕ → String → String → Handler SessionRecord
owned env n id actor = do
  found ← read env n λ s. get (env.fails n) id s.sessions
  check_owner actor found

-- The members that the events of a session share.
unfoldable pub session_event :
    String → String → String → String → String → String → TrustMetadata → Event
session_event event_id parent id type actor agent trust = record zero_event {
  event_id = event_id;
  parent_event_id = parent;
  session_id = id;
  event_type = type;
  actor = actor;
  agent = agent;
  correlation_subject = "governance-shell";
  trust_level = trust.trust_level;
  enforcement_mode = trust.enforcement_mode;
}

-- With the modes that the session was created with.
unfoldable pub with_modes : SessionRecord → Event → Event
with_modes rec e = record e {
  run_id = rec.run_id;
  permission_mode = rec.permission_mode;
  approval_mode = rec.approval_mode;
  workspace_mode = rec.workspace_mode;
}

-- With the work item that the session is bound to.
unfoldable pub with_work_item : SessionRecord → Event → Event
with_work_item rec e = record e {
  work_item_id = rec.work_item_id;
  work_item_type = rec.work_item_type;
  commit_sha = rec.commit_sha;
  actor_hint = rec.actor_hint;
  source_system = rec.source_system;
}

unfoldable pub route_context : SessionRecord → SessionContext
route_context rec = record {
  repo_url = rec.repo_url;
  branch = rec.branch;
  commit_sha = rec.commit_sha;
  work_item_id = rec.work_item_id;
  work_item_type = rec.work_item_type;
  actor_hint = rec.actor_hint;
  source_system = rec.source_system;
}
