-- ===== src/Session/Creation.antt =====
-- createSession of ai-agent-orch/internal/governance/sessions.go, with evaluatePolicy of
-- session_policy.go. A GET of the same path lists the sessions; it is not modelled, and any method but
-- POST is refused here.
pub mod Fair
pub mod Native
use ai_governance_orchestrat.Audit.Event.{Event}
use ai_governance_orchestrat.Policy.Engine.{Any, Request, Reason, evaluate}
use ai_governance_orchestrat.Policy.Secrets.{SecretPattern}
use ai_governance_orchestrat.Prelude.{
  ℕ, String, Bool, true, false, not, Option, none, some, List, [], ◌∷◌, ◌==◌, if◌then◌else◌,
}
use ai_governance_orchestrat.Session.Gate.{
  Config, HttpRequest, PolicyDecision, authorize, read_body, session_event, trust,
}
use ai_governance_orchestrat.Session.Record.{SessionRecord, create}
use ai_governance_orchestrat.Session.Request.{
  CreateSessionRequest, Body, WorkItemError, validate, normalize_runtime_modes,
  resolve_session_context, enforce_work_item_context,
}
use ai_governance_orchestrat.Session.Service.{
  Service, Environment, Handler, pure, answer, write, ◌>>=◌, ◌>>◌, refuse_if, attempt, append, deny,
  denied_event, check_switch,
}
use ai_governance_orchestrat.Session.Service.Local.{remember_event_id, remember_prompt, is_some}

-- The native engine as the service's engine; the texts of its reasons are formatted by Go's fmt.
unfoldable pub native_policy :
    {Usd : Type 0}
    → (Usd → Usd → Bool)
    → Usd
    → (SecretPattern → String → Bool)
    → (Reason → String)
    → Request Usd
    → Option PolicyDecision
native_policy gt zero_usd matches reason_text req =
    let decision = evaluate gt zero_usd matches req "" in
    some (record {
      allowed = decision.allowed;
      reason = reason_text decision.reason;
      findings = decision.findings;
    })

abbrev allowed_decision : PolicyDecision
allowed_decision = record { allowed = true; reason = "allowed"; findings = [] }

module _ {Usd : Type 0} (config : Config Usd) (env : Environment) (request : HttpRequest) where
  -- What createSession asks of the policy engine.
  unfoldable pub policy_request : String → CreateSessionRequest Usd → Request Usd
  policy_request actor r = record {
    session_id = "";
    user_id = actor;
    agent_name = r.agent;
    action_type = "session.create";
    resource = "";
    tool_name = "";
    classification = r.classification;
    classification_max = config.classification_max;
    findings = [];
    metadata = ("prompt_length", Any.other) ∷ ("prompt", Any.text r.prompt) ∷ [];
    cost_cap_enabled = config.cost_cap_enabled;
    session_cost_cap_usd = config.session_cost_cap_usd;
    estimated_cost_usd = r.estimated_cost_usd;
  }

  -- evaluatePolicy: without an engine everything is allowed.
  unfoldable pub evaluate_policy :
      Option (Request Usd → Option PolicyDecision) → Request Usd → Option PolicyDecision
  evaluate_policy none req = some allowed_decision
  evaluate_policy (some engine) req = engine req

  abbrev denied : String → CreateSessionRequest Usd → String → List String → Event
  denied actor r reason findings =
      denied_event (env.new_id 0) actor reason findings r.classification

  -- The branches on the decision.
  unfoldable pub check_decision :
      String → CreateSessionRequest Usd → Option PolicyDecision → Handler (Unit {0})
  check_decision actor r none =
      deny env 5 (denied actor r "policy engine unavailable" []) 503 "policy engine unavailable"
  check_decision actor r (some decision) =
      let reason = if decision.reason == "" then "policy denied" else decision.reason in
      if decision.allowed
      then pure tt
      else if reason == "cost cap exceeded"
      then deny env 5 (denied actor r reason []) 402 reason
      else deny env 5 (denied actor r reason decision.findings) 403 reason

  -- The audit event of the new session.
  unfoldable pub created_event : String → CreateSessionRequest Usd → Event
  created_event actor r =
      record (session_event (env.new_id 1) "" (env.new_id 0) "session.created" actor r.agent
        (trust config env request)) {
          classification = r.classification;
          run_id = r.run_id;
          permission_mode = r.permission_mode;
          approval_mode = r.approval_mode;
          workspace_mode = r.workspace_mode;
          work_item_id = r.work_item_id;
          work_item_type = r.work_item_type;
          commit_sha = r.commit_sha;
          actor_hint = r.actor_hint;
          source_system = r.source_system;
          prompt_sha256 = config.sha256_hex r.prompt;
        }

  -- Its record; the gateway token is the request's third id.
  unfoldable pub created_record : String → CreateSessionRequest Usd → SessionRecord
  created_record actor r = record {
    session_id = env.new_id 0;
    parent_session_id = "";
    actor_subject = actor;
    agent = r.agent;
    routed_agent = "";
    classification = r.classification;
    prompt_sha256 = config.sha256_hex r.prompt;
    status = "created";
    created_at = env.now;
    gateway_token_sha256 = config.sha256_hex (env.new_id 2);
    runtime_gateway_token_sha256 = "";
    run_id = r.run_id;
    permission_mode = r.permission_mode;
    approval_mode = r.approval_mode;
    workspace_mode = r.workspace_mode;
    use_case_id = r.use_case_id;
    workflow_id = r.workflow_id;
    work_item_id = r.work_item_id;
    work_item_type = r.work_item_type;
    repo_url = r.repo_url;
    branch = r.branch;
    commit_sha = r.commit_sha;
    actor_hint = r.actor_hint;
    source_system = r.source_system;
    sizing = r.sizing;
  }

  -- After the audit event.
  unfoldable pub persist : String → CreateSessionRequest Usd → Handler (Unit {0})
  persist actor r = do
    problem ← attempt env 7 λ broken. create broken (created_record actor r)
    refuse_if (is_some problem) 500 "session store failed"
    write env 8 (remember_prompt env.now (env.new_id 0) r.prompt)
    write env 9 (remember_event_id (env.new_id 0) (env.new_id 1))
    answer 201 "created"

  -- The work item's test; `text_of` formats its error.
  unfoldable pub check_work_item :
      (WorkItemError → String)
      → String
      → CreateSessionRequest Usd
      → Option WorkItemError
      → Handler (Unit {0})
  check_work_item text_of actor r none = pure tt
  check_work_item text_of actor r (some problem) =
      deny env 3 (denied actor r (text_of problem) []) 428 (text_of problem)

  unfoldable pub check_request : Option String → Handler (Unit {0})
  check_request none = pure tt
  check_request (some problem) = answer 400 problem

  -- A request past its own checks: the agent's kill switch, the policy, the audit event, the record.
  unfoldable pub create_checked : String → CreateSessionRequest Usd → Handler (Unit {0})
  create_checked actor r = do
    check_switch env 3 config.kill_switch (λ reason. denied actor r reason []) r.agent
    check_decision actor r (evaluate_policy config.policy (policy_request actor r))
    written ← append env 6 (created_event actor r)
    if written then persist actor r else answer 500 "audit write failed"

  unfoldable pub create_session :
      (WorkItemError → String) → Body (CreateSessionRequest Usd) → Handler (Unit {0})
  create_session text_of body = do
    actor ← authorize config env request 0
    check_switch env 1 config.kill_switch (λ reason. denied_event (env.new_id 0) actor reason [] "")
        ""
    sent ← read_body body
    check_request (validate (normalize_runtime_modes sent))
    check_work_item text_of actor
        (resolve_session_context config.resolver (normalize_runtime_modes sent))
        (enforce_work_item_context config.require_work_item
          (resolve_session_context config.resolver (normalize_runtime_modes sent)))
    create_checked actor (resolve_session_context config.resolver (normalize_runtime_modes sent))
