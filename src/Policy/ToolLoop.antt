-- ===== src/Policy/ToolLoop.antt =====
-- ToolLoopCounter of ai-agent-orch/internal/policyengine/tool_loop.go. A limit below 0 acts as the
-- limit 0, since the code only tests `limit <= 0`; the counter is a 64-bit integer that counts calls
-- of one session, and is left unbounded.
pub mod Runs
use ai_governance_orchestrat.Prelude.{
  ℕ, ◌+◌, String, Bool, true, false, ◌||◌, List, [], ◌∷◌, ◌==◌, leb, ltb, if◌then◌else◌,
}

pub record ToolLoopCounter : Type 0 where
  pub limit : ℕ
  pub consecutive : ℕ

unfoldable pub new_tool_loop_counter : ℕ → ToolLoopCounter
new_tool_loop_counter limit = record { limit = limit; consecutive = 0 }

abbrev pub is_call : String → Bool
is_call event = event == "mcp_call" || event == "tool_call" || event == "command"

abbrev pub is_output : String → Bool
is_output event = event == "stream" || event == "patch" || event == "done"

unfoldable pub observe : ToolLoopCounter → String → ToolLoopCounter × Bool
observe c event =
    if leb c.limit 0
    then (c, false)
    else if is_call event
    then (record c { consecutive = c.consecutive + 1 }, ltb c.limit (c.consecutive + 1))
    else if is_output event
    then (record c { consecutive = 0 }, false)
    else (c, false)

-- The counter after a stream of events, and what the last of them returned.
unfoldable pub observe_all : ToolLoopCounter → List String → ToolLoopCounter
observe_all c [] = c
observe_all c (event ∷ events) = observe_all (observe c event).0 events
