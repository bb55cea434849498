-- ===== src/Session/Shell/Owners.antt =====
-- Calls on the sessions of others (ai-agent-orch/internal/governance).
use ai_governance_orchestrat.Prelude.{◌≡◌, refl}
use ai_governance_orchestrat.Session.Auth.{actor_from_context}
use ai_governance_orchestrat.Session.Gate.{Config, Orchestrator, HttpRequest}
use ai_governance_orchestrat.Session.Handlers.Ownership.{
  Still, Foreign, IsForeign, id_for, message-Keeps, confirm-Keeps, turn-Keeps, decision-Keeps,
  abort-Keeps,
}
use ai_governance_orchestrat.Session.Service.{Service, Environment, Ending, done, answered}
use ai_governance_orchestrat.Session.Service.Quiet.{IsQuiet, On, Keeps}
use ai_governance_orchestrat.Session.Service.Rules.{Ends}
use ai_governance_orchestrat.Session.Shell.{
  Call, creation, message, confirm, turn, abort, patch_decision, execution, serve,
}

module _ (env : Environment) (quiet : IsQuiet env) {Usd : Type 0} (config : Config Usd)
    (orch : Orchestrator) (request : HttpRequest) where
  -- A request on a session, which is unknown or belongs to no actor that the request is let in as.
  abbrev pub IsOthers : Service → Call Usd → Type 0
  IsOthers s (creation text_of body) = ⊥
  IsOthers s (message blank body) =
      IsForeign env quiet config orch request s.sessions s.executions "/messages"
  IsOthers s (confirm body) =
      IsForeign env quiet config orch request s.sessions s.executions "/confirm"
  IsOthers s (turn body) = IsForeign env quiet config orch request s.sessions s.executions "/turns"
  IsOthers s abort =
      Foreign env quiet config orch request s.sessions s.executions
        (id_for env quiet config orch request s.sessions s.executions "/abort")
        (actor_from_context request.credentials.context_subject)
  IsOthers s (patch_decision body) =
      IsForeign env quiet config orch request s.sessions s.executions "/patch-decision"
  IsOthers s (execution runtime x) = ⊥

  others-Keeps :
      (s : Service) (call : Call Usd)
      → IsOthers s call
      → Keeps env quiet
          (Still env quiet config orch request s.sessions s.executions)
          (serve config orch env request call)
  unfolding serve
  others-Keeps s (creation text_of body) foreign = absurd foreign
  others-Keeps s (message blank body) foreign =
      message-Keeps env quiet config orch request s.sessions s.executions foreign blank body
  others-Keeps s (confirm body) foreign =
      confirm-Keeps env quiet config orch request s.sessions s.executions foreign body
  others-Keeps s (turn body) foreign =
      turn-Keeps env quiet config orch request s.sessions s.executions foreign body
  others-Keeps s abort foreign =
      abort-Keeps env quiet config orch request s.sessions s.executions foreign
  others-Keeps s (patch_decision body) foreign =
      decision-Keeps env quiet config orch request s.sessions s.executions foreign body
  others-Keeps s (execution runtime x) foreign = absurd foreign

  -- A message, a confirmation, a turn, an abort or a patch decision on a session that is unknown or
  -- belongs to another actor changes no session and starts no execution, where nothing else runs
  -- meanwhile.
  pub serve-others_unchanged :
      (call : Call Usd) (s : Service)
      → IsOthers s call
      → ((serve config orch env request call s).1.sessions ≡ s.sessions)
        × ((serve config orch env request call s).1.executions ≡ s.executions)
  serve-others_unchanged call s foreign =
      at_end (serve config orch env request call s)
        ((others-Keeps s call foreign).ends s (refl, refl))
    where
      at_end :
          (e : Ending (Unit {0}) × Service)
          → Ends
              (λ _. On (Still env quiet config orch request s.sessions s.executions))
              (λ _. On (Still env quiet config orch request s.sessions s.executions))
              e
          → (e.1.sessions ≡ s.sessions) × (e.1.executions ≡ s.executions)
      at_end (done a, s') h = h
      at_end (answered r, s') h = h
