-- ===== src/Session/Handlers.antt =====
-- The handlers of a session's life in ai-agent-orch/internal/governance: messages.go, confirm.go,
-- turns.go, abort.go and patch_decision.go, with RunAsync of execution.go. A handler's calls are
-- numbered in the order of the code; the calls of one branch may share a number with another's.
pub mod Fair
pub mod Ownership
pub mod Confirming
use Prim.Native.String.{◌++◌ as str_append}
use ai_governance_orchestrat.Policy.Secrets.{detect_secrets}
use ai_governance_orchestrat.Prelude.Strings.{trim_text}
use ai_governance_orchestrat.Prelude.{
  ℕ, ◌+◌, String, Bool, true, false, not, ◌&&◌, ◌||◌, Option, none, some, List, [], ◌∷◌, ◌++◌, ◌==◌,
  if◌then◌else◌, length,
}
use ai_governance_orchestrat.Audit.Event.{Event, zero_event}
use ai_governance_orchestrat.Session.Gate.{
  Config, Orchestrator, HttpRequest, authorize, session_id_for, trust, read_body, owned,
  session_event, with_modes, with_work_item, route_context,
}
use ai_governance_orchestrat.Session.Auth.{actor_from_context}
use ai_governance_orchestrat.Session.KillSwitch.{blocked_by_kill_switch}
use ai_governance_orchestrat.Session.Record.{
  SessionRecord, StoreError, update_status, set_routed_agent, compare_and_swap_status, get,
}
use ai_governance_orchestrat.Session.Request.{Body, SessionContext}
use ai_governance_orchestrat.Session.Service.{
  Service, Environment, Execution, Handler, pure, answer, read, write, ◌>>=◌, ◌>>◌, refuse_if,
  attempt, append, deny, denied_event, check_switch,
}
use ai_governance_orchestrat.Session.Service.Local.{
  remember_event_id, parent_event_id, remember_prompt, prompt_for_session, forget_prompt,
  register_cancel, cancel_execution, patch_known, is_some, or_empty,
}
use ai_governance_orchestrat.Stream.{SessionEvent, publish, close, reopen}

-- setSessionStatus, whose error is ignored.
unfoldable pub set_session_status : Environment → ℕ → String → String → Handler (Unit {0})
set_session_status env n id status =
    if id == "" || status == ""
    then pure tt
    else (attempt env n (λ broken. update_status broken id status) >>= λ problem. pure tt)

unfoldable pub set_routed : Environment → ℕ → String → String → Handler (Option StoreError)
set_routed env n id agent =
    if id == "" || agent == ""
    then pure none
    else attempt env n λ broken. set_routed_agent broken id agent

-- The goroutine of RunAsync: its cancel function is registered, and it is started.
unfoldable pub start : ℕ → Execution → Service → Service
start now x s =
    let registered = register_cancel now x.session_id (length s.executions) s in
    record registered { executions = s.executions ++ x ∷ [] }

unfoldable pub run_async : Environment → ℕ → Execution → Handler (Unit {0})
run_async env n x = do
  set_session_status env n x.session_id "running"
  write env (n + 1) (start env.now x)

-- EventStore.Publish, of an event of the service's own.
unfoldable pub publish_event : ℕ → String → String → String → Service → Service
publish_event now id type payload s = record s {
  events = publish s.events id (record { type = type; payload = payload; timestamp = now });
}

unfoldable pub is_turn_eligible_status : String → Bool
is_turn_eligible_status status = status == "done" || status == "failed" || status == "patch_ready"

abbrev pub is_nonempty {ℓ} : {A : Type ℓ} → List A → Bool
is_nonempty [] = false
is_nonempty (x ∷ xs) = true

abbrev pub or_other : Option SessionRecord → SessionRecord → SessionRecord
or_other none other = other
or_other (some rec) other = rec

-- The body of a turn; `use_case_id` and `workflow_id` are read by nothing.
pub record TurnRequest : Type 0 where
  pub prompt : String
  pub agent : String
  pub auto_confirm : Bool

pub record DecisionRequest : Type 0 where
  pub patch_id : String
  pub decision : String
  pub reason : String

module _ {Usd : Type 0} (config : Config Usd) (orch : Orchestrator) (env : Environment)
    (request : HttpRequest) where
  abbrev denied : String → String → List String → Event
  denied actor reason findings = denied_event (env.new_id 0) actor reason findings ""

  -- `h.service.audit.Append` of an event that follows the session's last one, by calls n and n + 1.
  unfoldable pub append_next : ℕ → String → (String → Event) → Handler Bool
  append_next n id event = do
    parent ← read env n (parent_event_id id)
    append env (n + 1) (event parent)

  -- The secrets of a follow-up prompt.
  unfoldable pub check_secrets : ℕ → String → String → String → Handler (Unit {0})
  check_secrets n actor prompt why =
      let findings = detect_secrets config.matches prompt in
      if is_nonempty findings
      then deny env n (denied actor why findings) 403 "secret detected"
      else pure tt

  -- orch.Route, or the answer that it failed.
  unfoldable pub routed : String → String → SessionRecord → Handler (String × String)
  routed id prompt rec = elim (orch.route id prompt (route_context rec)) [
    | none ↦ answer 502 "routing failed"
    | some choice ↦ pure choice
  ]

  -- MessagesHandler. The second Get that the code makes for the routing context is the call 5; where
  -- it fails, the record is the zero value, `blank`.
  unfoldable pub serve_message : SessionRecord → Body String → Handler (Unit {0})
  serve_message blank body = do
    actor ← authorize config env request 0
    id ← session_id_for config env request "/messages"
    check_switch env 1 config.kill_switch (λ reason. denied actor reason []) ""
    rec ← owned env 3 id actor
    refuse_if (not (rec.status == "created")) 409 "session is not awaiting routing"
    prompt ← read_body body
    refuse_if (prompt == "") 400 "prompt is required"
    check_secrets 4 actor prompt "secret detected in follow-up message"
    again ← read env 5 λ s. get (env.fails 5) id s.sessions
    choice ← routed id prompt (or_other again blank)
    unrouted ← set_routed env 6 id choice.0
    refuse_if (is_some unrouted) 500 "routed agent update failed"
    unmoved ← attempt env 7 λ broken. update_status broken id "awaiting_confirmation"
    refuse_if (is_some unmoved) 500 "session status update failed"
    written ← append_next 8 id λ parent. with_modes (or_other again blank) (
        with_work_item (or_other again blank)
          (record (session_event (env.new_id 1) parent id "router.specialist.selected" actor
            choice.0 (trust config env request)) { reason = choice.1 }))
    refuse_if (not written) 500 "audit write failed"
    write env 10 (remember_event_id id (env.new_id 1))
    write env 11 (remember_prompt env.now id prompt)
    answer 200 "awaiting_confirmation"

  -- The event that confirms an execution.
  unfoldable pub confirmation : String → String → String → String → String → Event
  confirmation type id actor agent parent =
      session_event (env.new_id 1) parent id type actor agent (trust config env request)

  -- ConfirmHandler after its audit event.
  unfoldable pub confirmed : String → String → String → Handler (Unit {0})
  confirmed id agent prompt = do
    write env 9 (remember_event_id id (env.new_id 1))
    problem ← attempt env 10 λ broken. compare_and_swap_status broken id "confirming" "confirmed"
    refuse_if (is_some problem) 409 "session state transition failed"
    write env 11 (forget_prompt id)
    run_async env 12 (record { session_id = id; agent = agent; prompt = prompt })
    answer 200 "confirmed"

  -- The rollback of ConfirmHandler.
  unfoldable pub unconfirmed : String → ℕ → String → Handler (Unit {0})
  unconfirmed id code text = do
    set_session_status env 14 id "awaiting_confirmation"
    answer code text

  unfoldable pub accepted : String → String → String → String → Handler (Unit {0})
  accepted id actor agent prompt = do
    parent ← read env 7 (parent_event_id id)
    written ← append env 8 (confirmation "session.confirmed" id actor agent parent)
    if written then confirmed id agent prompt else unconfirmed id 500 "audit write failed"

  abbrev pub found_prompt : Option String → Handler String
  found_prompt none = answer 409 "session prompt unavailable"
  found_prompt (some prompt) = pure prompt

  -- ConfirmHandler with an event store.
  unfoldable pub serve_confirm : Body String → Handler (Unit {0})
  serve_confirm body = do
    actor ← authorize config env request 0
    id ← session_id_for config env request "/confirm"
    agent ← read_body body
    refuse_if (agent == "") 400 "agent is required"
    check_switch env 1 config.kill_switch (λ reason. denied actor reason []) agent
    kept ← read env 3 (prompt_for_session config.local_state_ttl env.now id)
    prompt ← found_prompt kept
    rec ← owned env 4 id actor
    refuse_if (not (rec.routed_agent == "") && not (rec.routed_agent == agent)) 409
        "confirmed agent does not match routed specialist"
    problem ←
        attempt env 5
          λ broken. compare_and_swap_status broken id "awaiting_confirmation" "confirming"
    refuse_if (is_some problem) 409 "session state transition failed"
    if orch.accept id agent
        then accepted id actor agent prompt
        else unconfirmed id 502 "orchestrator accept failed"

  -- TurnsHandler: the agent and the reason, by the request or by the router.
  unfoldable pub turn_choice : String → TurnRequest → SessionRecord → Handler (String × String)
  turn_choice id turn rec =
      let agent = trim_text turn.agent in
      if agent == ""
      then routed id turn.prompt rec
      else pure (agent, "follow-up turn agent override")

  unfoldable pub check_turn_agent : TurnRequest → Handler (Unit {0})
  check_turn_agent turn =
      let agent = trim_text turn.agent in
      if agent == ""
      then pure tt
      else (read env 3 (λ s. blocked_by_kill_switch config.kill_switch s.switches agent)
          >>= λ blocked. refuse_if (is_some blocked) 423 (or_empty blocked))

  -- A turn that waits for its confirmation.
  unfoldable pub turn_waits : String → String → Handler (Unit {0})
  turn_waits id agent = do
    unrouted ← set_routed env 9 id agent
    refuse_if (is_some unrouted) 500 "routed agent update failed"
    unmoved ← attempt env 10 λ broken. update_status broken id "awaiting_confirmation"
    refuse_if (is_some unmoved) 500 "session status update failed"
    answer 200 "awaiting_confirmation"

  -- A turn that is confirmed, after its audit event.
  unfoldable pub turn_starts : String → String → String → Handler (Unit {0})
  turn_starts id agent prompt = do
    write env 11 (remember_event_id id (env.new_id 1))
    write env 12 (
        publish_event env.now id "stream"
          (str_append "Follow-up turn for " (str_append agent "...")))
    write env 13 (forget_prompt id)
    run_async env 14 (record { session_id = id; agent = agent; prompt = prompt })
    answer 202 "running"

  unfoldable pub turn_confirmed : String → String → String → String → Handler (Unit {0})
  turn_confirmed id actor agent prompt = do
    refuse_if (not (orch.accept id agent)) 502 "orchestrator accept failed"
    parent ← read env 9 (parent_event_id id)
    written ← append env 10 (confirmation "session.turn.confirmed" id actor agent parent)
    if written then turn_starts id agent prompt else answer 500 "audit write failed"

  unfoldable pub serve_turn : Body TurnRequest → Handler (Unit {0})
  serve_turn body = do
    actor ← authorize config env request 0
    id ← session_id_for config env request "/turns"
    turn ← read_body body
    refuse_if (trim_text turn.prompt == "") 400 "prompt is required"
    check_secrets 1 actor turn.prompt "secret detected in follow-up turn"
    rec ← owned env 2 id actor
    refuse_if (not (is_turn_eligible_status rec.status)) 409
        "session is not ready for a follow-up turn"
    check_turn_agent turn
    write env 4 (λ s. record s { events = reopen s.events id })
    write env 5 (remember_prompt env.now id turn.prompt)
    choice ← turn_choice id turn rec
    written ← append_next 6 id λ parent.
        with_modes rec
          (record (session_event (env.new_id 0) parent id "session.turn.requested" actor choice.0
            (trust config env request)) { reason = choice.1 })
    refuse_if (not written) 500 "audit write failed"
    write env 8 (remember_event_id id (env.new_id 0))
    if turn.auto_confirm
        then turn_confirmed id actor choice.0 turn.prompt
        else turn_waits id choice.0

  -- AbortHandler, which reads the actor of the context and makes no check of its own.
  unfoldable pub serve_abort : Handler (Unit {0})
  serve_abort = do
    refuse_if (not (request.method == "POST")) 405 "method not allowed"
    id ← session_id_for config env request "/abort"
    rec ← owned env 0 id (actor_from_context request.credentials.context_subject)
    written ← append_next 1 id λ parent. record zero_event {
      event_id = env.new_id 0;
      parent_event_id = parent;
      session_id = id;
      event_type = "session.aborted";
      actor = actor_from_context request.credentials.context_subject;
      correlation_subject = "governance-shell";
      recorded_at = env.now;
    }
    refuse_if (not written) 500 "audit write failed"
    write env 3 (remember_event_id id (env.new_id 0))
    problem ← attempt env 4 λ broken. compare_and_swap_status broken id rec.status "aborted"
    refuse_if (is_some problem) 409 "session state transition failed"
    write env 5 (cancel_execution config.local_state_ttl env.now id)
    write env 6 (publish_event env.now id "abort" "Session aborted by user")
    write env 7 (λ s. record s { events = close env.now s.events id })
    answer 200 "aborted"

  -- PatchDecisionHandler; the errors of an unknown decision quote it.
  unfoldable pub serve_patch_decision : Body DecisionRequest → Handler (Unit {0})
  serve_patch_decision body = do
    actor ← authorize config env request 0
    id ← session_id_for config env request "/patch-decision"
    rec ← owned env 1 id actor
    req ← read_body body
    refuse_if (req.patch_id == "") 400 "patch_id is required"
    refuse_if (req.decision == "") 400 "decision is required"
    refuse_if
        (not (
          req.decision == "applied"
          || req.decision == "partially_applied"
          || req.decision == "rejected"))
        400 "invalid decision"
    known ← read env 2 (patch_known config.local_state_ttl env.now id req.patch_id)
    refuse_if (not known) 409 "patch is not known for session"
    written ← append_next 3 id λ parent.
        record (session_event (env.new_id 0) parent id "patch.decision" actor ""
          (trust config env request)) {
            reason = str_append req.decision (str_append ": " req.reason);
            patch_id = req.patch_id;
            patch_decision = req.decision;
          }
    refuse_if (not written) 500 "audit write failed"
    write env 5 (remember_event_id id (env.new_id 0))
    answer 200 req.decision
