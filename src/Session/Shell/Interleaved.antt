-- ===== src/Session/Shell/Interleaved.antt =====
-- Calls of the shell (ai-agent-orch/internal/governance) that run between each other's steps.
use ai_governance_orchestrat.Prelude.Dict.{lookup}
use ai_governance_orchestrat.Prelude.{ℕ, String, Bool, refl}
use ai_governance_orchestrat.Session.Gate.{Config, Orchestrator, HttpRequest}
use ai_governance_orchestrat.Session.KillSwitch.{SwitchState}
use ai_governance_orchestrat.Session.Service.{Service, Environment}
use ai_governance_orchestrat.Session.Service.Steady.{Accounted, IsFair}
use ai_governance_orchestrat.Session.Shell.{Call, serve, new_session_service}
use ai_governance_orchestrat.Session.Shell.Audited.{serve-IsFair}

-- Calls one after the other. Each comes with its clock, its ids, the steps of it that fail, and the
-- calls that run before each of its steps, which are of the same kind.
pub data Calls (Usd : Type 0) : Type 0 where
  finished : Calls Usd
  next :
      ℕ
      → (ℕ → String)
      → (ℕ → Bool)
      → HttpRequest
      → Call Usd
      → (ℕ → Calls Usd)
      → Calls Usd
      → Calls Usd

module _ {Usd : Type 0} (config : Config Usd) (orch : Orchestrator) where
  -- What the calls make of the service.
  unfoldable pub run_calls : Calls Usd → Service → Service
  run_calls finished s = s
  run_calls (next now new_id fails request call between rest) s =
      let env : Environment = record {
        now = now;
        new_id = new_id;
        fails = fails;
        meanwhile = λ n. run_calls (between n);
      } in
      run_calls rest (serve config orch env request call s).1

  run_calls-IsFair : (calls : Calls Usd) → IsFair (run_calls calls)
  unfolding run_calls
  run_calls-IsFair finished K lasting s h = h
  run_calls-IsFair (next now new_id fails request call between rest) K lasting s h =
      let env : Environment = record {
        now = now;
        new_id = new_id;
        fails = fails;
        meanwhile = λ n. run_calls (between n);
      } in
      run_calls-IsFair rest K lasting _ (
        serve-IsFair config orch env request call (λ n. run_calls-IsFair (between n)) K lasting s h)

  -- Whatever calls are made of a new shell (creations, messages, confirmations, turns, aborts, patch
  -- decisions and executions), whatever calls of these run between the steps of each, to any depth,
  -- and whatever steps fail: every execution that was started has an event in the audit log that
  -- confirms it, for its session and its agent, and every session that is stored has the event of its
  -- creation there.
  pub run_calls-Accounted :
      (calls : Calls Usd) (switches : SwitchState)
      → Accounted (run_calls calls (new_session_service switches))
  unfolding new_session_service lookup
  run_calls-Accounted calls switches =
      (run_calls-IsFair calls (λ log. Unit {0}) (λ log e k. tt) (new_session_service switches)
        ((tt, λ id found. absurd (found refl)), tt)).0
