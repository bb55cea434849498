-- ===== src/Session/Shell.antt =====
-- The Governance Shell's sessions as a whole (ai-agent-orch/internal/governance): the requests and the
-- executions, each with what the others do between its calls.
pub mod Audited
pub mod Owners
pub mod Interleaved
use ai_governance_orchestrat.Prelude.{String, List, [], ◌∷◌}
use ai_governance_orchestrat.Session.Creation.{create_session}
use ai_governance_orchestrat.Session.Execution.{Runtime, run_execution}
use ai_governance_orchestrat.Session.Gate.{Config, Orchestrator, HttpRequest}
use ai_governance_orchestrat.Session.Handlers.{
  TurnRequest, DecisionRequest, serve_message, serve_confirm, serve_turn, serve_abort,
  serve_patch_decision,
}
use ai_governance_orchestrat.Session.KillSwitch.{SwitchState}
use ai_governance_orchestrat.Session.Record.{SessionRecord}
use ai_governance_orchestrat.Session.Request.{CreateSessionRequest, Body, WorkItemError}
use ai_governance_orchestrat.Session.Service.{Service, Environment, Execution, Handler}
use ai_governance_orchestrat.Stream.{new_event_store}

-- NewSessionService, on a session store and an audit store that are empty.
unfoldable pub new_session_service : SwitchState → Service
new_session_service switches = record {
  sessions = [];
  switches = switches;
  log = [];
  last_event_id = [];
  prompts = [];
  patches = [];
  buffer = [];
  cancels = [];
  cancelled = [];
  events = new_event_store;
  executions = [];
}

-- What the shell is asked, and the goroutine of an execution.
pub data Call (Usd : Type 0) : Type 0 where
  creation : (WorkItemError → String) → Body (CreateSessionRequest Usd) → Call Usd
  message : SessionRecord → Body String → Call Usd
  confirm : Body String → Call Usd
  turn : Body TurnRequest → Call Usd
  abort : Call Usd
  patch_decision : Body DecisionRequest → Call Usd
  execution : Runtime → Execution → Call Usd

module _ {Usd : Type 0} (config : Config Usd) (orch : Orchestrator) where
  unfoldable pub serve : Environment → HttpRequest → Call Usd → Handler (Unit {0})
  serve env request (creation text_of body) = create_session config env request text_of body
  serve env request (message blank body) = serve_message config orch env request blank body
  serve env request (confirm body) = serve_confirm config orch env request body
  serve env request (turn body) = serve_turn config orch env request body
  serve env request abort = serve_abort config orch env request
  serve env request (patch_decision body) = serve_patch_decision config orch env request body
  serve env request (execution runtime x) = run_execution config runtime env x
