-- ===== src/Tests/Policy.antt =====
-- Requests to the policy engine, the broker and the tool-loop counter.
use ai_governance_orchestrat.Prelude.Text.{codes, same_text}
use ai_governance_orchestrat.Prelude.Dict.{lookup}
use ai_governance_orchestrat.Prelude.{
  ℕ, String, Bool, true, false, none, some, List, [], ◌∷◌, ◌≡◌, refl, ◌↔◌, arith, ltb,
  if◌then◌else◌, ◌+◌,
}
use mathlib.Core.List.{reverse}
use ai_governance_orchestrat.Policy.Classification.{classification_exceeds_max, ok}
use ai_governance_orchestrat.Policy.Classification.Levels.{
  Level, Names, rank, classification_exceeds_max-eq-ok_iff,
}
use ai_governance_orchestrat.Policy.Secrets.{
  SecretPattern, aws_access_key_id, private_key, detect_secrets, matching_names, secret_patterns,
  detect_secrets-eq,
}
use ai_governance_orchestrat.Policy.Engine.{
  text, texts, Request, evaluate, secret_detected, string_slice_contains, string_slice_metadata,
}
use ai_governance_orchestrat.Policy.Engine.Spec.{Permitted}
use ai_governance_orchestrat.Policy.Engine.Allowed.{evaluate-allowed_iff}
use ai_governance_orchestrat.Policy.Allowlist.{
  requirement_satisfied, SystemCommand, validate_with_permissions, parse_tool_command,
}
use ai_governance_orchestrat.Policy.Allowlist.Decides.{
  First, IsDecisive, Grants, validate_with_permissions-eq-none_iff,
}
use ai_governance_orchestrat.Policy.ToolLoop.{observe, observe_all, new_tool_loop_counter, is_call}
use ai_governance_orchestrat.Policy.ToolLoop.Runs.{calls_since_output, observe_exact}

classification_exceeds_max-eq-ok_iff_example :
    (classification_exceeds_max " Restricted " "" ≡ ok true)
    ↔ ((l m : Level) × Names " Restricted " l × Names "" m × (true ≡ ltb (rank m) (rank l)))
classification_exceeds_max-eq-ok_iff_example =
    classification_exceeds_max-eq-ok_iff " Restricted " "" true

restricted_above_internal : classification_exceeds_max " Restricted " "" ≡ ok true
unfolding classification_exceeds_max
restricted_above_internal = refl

-- A text that holds a key and a private key, under every name of the table but three.
abbrev shows : SecretPattern → String → Bool
shows aws_access_key_id s = true
shows private_key s = true
shows p s = false

detect_secrets-eq_example :
    detect_secrets shows "AKIA" ≡ matching_names shows "AKIA" secret_patterns
detect_secrets-eq_example = detect_secrets-eq shows "AKIA"

two_secrets : detect_secrets shows "AKIA" ≡ "aws_access_key_id" ∷ "private_key" ∷ []
unfolding detect_secrets
two_secrets = refl

-- Costs in whole dollars.
abbrev above : ℕ → ℕ → Bool
above a b = ltb b a

abbrev tool_call : Request ℕ
tool_call = record {
  session_id = "s";
  user_id = "u";
  agent_name = "coder";
  action_type = "mcp.tool_call";
  resource = "github";
  tool_name = "search";
  classification = "internal";
  classification_max = "confidential";
  findings = [];
  metadata = ("tool_allow", texts ("search" ∷ [])) ∷ ("allowed_agents", texts ("coder" ∷ [])) ∷ [];
  cost_cap_enabled = false;
  session_cost_cap_usd = 0;
  estimated_cost_usd = 0;
}

evaluate-allowed_iff_example :
    ((evaluate above 0 shows tool_call "id").allowed ≡ true) ↔ Permitted above 0 shows tool_call
evaluate-allowed_iff_example = evaluate-allowed_iff above 0 shows tool_call "id"

tool_call_allowed : (evaluate above 0 shows tool_call "id").allowed ≡ true
unfolding evaluate classification_exceeds_max string_slice_metadata string_slice_contains
tool_call_allowed = refl

prompt_denied :
    (evaluate above 0 shows
      (record tool_call { action_type = "prompt"; metadata = ("prompt", text "AKIA") ∷ [] })
      "id").reason
    ≡ secret_detected
unfolding evaluate classification_exceeds_max lookup detect_secrets
prompt_denied = refl

abbrev git : SystemCommand
git = record {
  name = "git";
  description = "";
  default = "deny";
  requires = "git=read";
  subcommands = record { name = "push"; description = ""; allowed_agents = "coder" ∷ [] } ∷ [];
}

validate_with_permissions-eq-none_iff_example :
    (validate_with_permissions (some (git ∷ [])) (codes "git") (codes "push") "coder" [] ≡ none) ↔ (
      (commands : List SystemCommand) × (some (git ∷ []) ≡ some commands)
      × First (IsDecisive (codes "git")) (Grants (codes "push") "coder" []) commands)
validate_with_permissions-eq-none_iff_example =
    validate_with_permissions-eq-none_iff (some (git ∷ [])) (codes "git") (codes "push") "coder" []

push_allowed :
    validate_with_permissions (some (git ∷ [])) (codes "git") (codes "push") "coder" [] ≡ none
unfolding validate_with_permissions string_slice_contains same_text
push_allowed = refl

read_allowed :
    validate_with_permissions (some (git ∷ [])) (codes "git") [] "reader" (("git", "read") ∷ [])
    ≡ none
unfolding validate_with_permissions string_slice_contains same_text requirement_satisfied
read_allowed = refl

tool_cut : parse_tool_command (codes "git:push:x") ≡ (codes "git", codes "push:x")
unfolding parse_tool_command
tool_cut = refl

observe_exact_example :
    (observe (observe_all (new_tool_loop_counter 1) ("command" ∷ [])) "mcp_call").1 ≡ (
      if is_call "mcp_call"
      then ltb 1 (calls_since_output (reverse ("command" ∷ [])) + 1)
      else false)
observe_exact_example = observe_exact 1 ("command" ∷ []) "mcp_call" (omega arith)

second_call_reported :
    (observe (observe_all (new_tool_loop_counter 1) ("command" ∷ [])) "mcp_call").1 ≡ true
unfolding observe observe_all new_tool_loop_counter
second_call_reported = refl
