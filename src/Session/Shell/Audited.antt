-- ===== src/Session/Shell/Audited.antt =====
-- The shell's calls as changes of one service (ai-agent-orch/internal/governance).
use ai_governance_orchestrat.Audit.Event.{Event}
use ai_governance_orchestrat.Prelude.{ℕ, List}
use ai_governance_orchestrat.Session.Creation.Fair.{create_session-Steady}
use ai_governance_orchestrat.Session.Execution.Fair.{run_execution-Steady}
use ai_governance_orchestrat.Session.Gate.{Config, Orchestrator, HttpRequest}
use ai_governance_orchestrat.Session.Handlers.Fair.{serve_message-Steady}
use ai_governance_orchestrat.Session.Handlers.Fair.Served.{
  serve_confirm-Steady, serve_turn-Steady, serve_abort-Steady, serve_patch_decision-Steady,
}
use ai_governance_orchestrat.Session.Service.{Service, Environment, Ending, done, answered}
use ai_governance_orchestrat.Session.Service.Rules.{Ends}
use ai_governance_orchestrat.Session.Service.Steady.{Holds, Lasting, IsFair, Steady}
use ai_governance_orchestrat.Session.Shell.{
  Call, creation, message, confirm, turn, abort, patch_decision, execution, serve,
}

module _ {Usd : Type 0} (config : Config Usd) (orch : Orchestrator) where
  serve-Steady :
      (env : Environment) (fair : (n : ℕ) → IsFair (env.meanwhile n)) (request : HttpRequest)
      (call : Call Usd) (K : List Event → Type 0) (lasting : Lasting K)
      → Steady env fair K lasting (serve config orch env request call)
  unfolding serve
  serve-Steady env fair request (creation text_of body) K lasting =
      create_session-Steady env fair K lasting config request text_of body
  serve-Steady env fair request (message blank body) K lasting =
      serve_message-Steady env fair K lasting config orch request blank body
  serve-Steady env fair request (confirm body) K lasting =
      serve_confirm-Steady env fair config orch request K lasting body
  serve-Steady env fair request (turn body) K lasting =
      serve_turn-Steady env fair config orch request K lasting body
  serve-Steady env fair request abort K lasting =
      serve_abort-Steady env fair config orch request K lasting
  serve-Steady env fair request (patch_decision body) K lasting =
      serve_patch_decision-Steady env fair config orch request K lasting body
  serve-Steady env fair request (execution runtime x) K lasting =
      run_execution-Steady env fair K lasting config runtime x

  held :
      {A : Type 0} (K : List Event → Type 0) (e : Ending A × Service)
      → Ends (λ _. Holds K) (λ _. Holds K) e
      → Holds K e.1
  held K (done a, s) h = h
  held K (answered r, s) h = h

  -- A request or an execution among others that keep the service accounted keeps it so itself, with
  -- every lasting fact on the log: calls may be interleaved with calls to any depth.
  pub serve-IsFair :
      (env : Environment) (request : HttpRequest) (call : Call Usd)
      → ((n : ℕ) → IsFair (env.meanwhile n))
      → IsFair (λ s. (serve config orch env request call s).1)
  serve-IsFair env request call fair K lasting s h =
      held K (serve config orch env request call s)
        ((serve-Steady env fair request call K lasting).ends s h)
