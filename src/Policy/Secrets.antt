-- ===== src/Policy/Secrets.antt =====
-- DetectSecrets of ai-agent-orch/internal/policyengine/classification.go. Whether a regular
-- expression matches a text is an argument, `matches`.
use ai_governance_orchestrat.Prelude.{
  String, Bool, false, ◌||◌, List, [], ◌∷◌, ◌++◌, ◌≡◌, ◌==◌, arith, if◌then◌else◌,
}

-- The table SecretPatterns.
pub data SecretPattern : Type 0 where
  openrouter_api_key openai_api_key aws_access_key_id : SecretPattern
  private_key password_assignment : SecretPattern

abbrev pub pattern_name : SecretPattern → String
pattern_name openrouter_api_key = "openrouter_api_key"
pattern_name openai_api_key = "openai_api_key"
pattern_name aws_access_key_id = "aws_access_key_id"
pattern_name private_key = "private_key"
pattern_name password_assignment = "password_assignment"

abbrev pub secret_patterns : List SecretPattern
secret_patterns =
    openrouter_api_key ∷ openai_api_key ∷ aws_access_key_id ∷ private_key ∷ password_assignment ∷ []

is_seen : String → List String → Bool
is_seen name [] = false
is_seen name (s ∷ seen) = s == name || is_seen name seen

-- The loop, with the set of names seen.
detect :
    (SecretPattern → String → Bool)
    → String
    → List String
    → List String
    → List SecretPattern
    → List String
unfolding is_seen
detect matches text seen findings [] = findings
detect matches text seen findings (pattern_ ∷ patterns) =
    let name = pattern_name pattern_ in
    let skipped = detect matches text seen findings patterns in
    let found = detect matches text (name ∷ seen) (findings ++ name ∷ []) patterns in
    if matches pattern_ text then (if is_seen name seen then skipped else found) else skipped

unfoldable pub detect_secrets : (SecretPattern → String → Bool) → String → List String
unfolding detect
detect_secrets matches text = detect matches text [] [] secret_patterns

-- The names of the patterns that match, in the order of the table.
abbrev pub matching_names :
    (SecretPattern → String → Bool) → String → List SecretPattern → List String
matching_names matches text [] = []
matching_names matches text (p ∷ ps) =
    let rest = matching_names matches text ps in
    if matches p text then pattern_name p ∷ rest else rest

-- The findings are the names of the matching patterns, each once and in the order of the table:
-- the set of seen names never drops one.
pub detect_secrets-eq :
    (matches : SecretPattern → String → Bool) (text : String)
    → detect_secrets matches text ≡ matching_names matches text secret_patterns
unfolding detect_secrets
detect_secrets-eq matches text = ground arith
