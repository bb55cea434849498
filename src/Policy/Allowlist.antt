-- ===== src/Policy/Allowlist.antt =====
-- ai-agent-orch/internal/policyengine/command_allowlist.go: the command allow-list and the broker
-- over it. Commands and subcommands are texts as code points, as ParseToolCommand cuts them. Reading
-- the policy file is not modelled; a nil list is `none`.
pub mod Decides
use ai_governance_orchestrat.Prelude.Text.{codes, same_text, trim_space, split}
use ai_governance_orchestrat.Prelude.{
  ℕ, String, Bool, true, false, not, ◌&&◌, ◌||◌, Option, none, some, List, [], ◌∷◌, ◌==◌, nat_eq,
  if◌then◌else◌,
}
use ai_governance_orchestrat.Policy.Engine.{string_slice_contains}

pub record Subcommand : Type 0 where
  pub name : String
  pub description : String
  pub allowed_agents : List String

pub record SystemCommand : Type 0 where
  pub name : String
  pub description : String
  pub default : String
  pub requires : String
  pub subcommands : List Subcommand

-- permissions[key], "" where the key is missing.
permission_at : List ℕ → List (String × String) → List ℕ
permission_at key [] = []
permission_at key ((k, v) ∷ permissions) =
    let rest = permission_at key permissions in if same_text (codes k) key then codes v else rest

is_blank : List ℕ → Bool
is_blank [] = true
is_blank (c ∷ cs) = false

require_pair : List (List ℕ) → List (String × String) → Bool
unfolding permission_at is_blank
require_pair (a ∷ b ∷ []) permissions =
    let key = trim_space a in
    let want = trim_space b in
    if is_blank key || is_blank want then false else same_text (permission_at key permissions) want
require_pair parts permissions = false

unfoldable pub requirement_satisfied : String → List (String × String) → Bool
unfolding require_pair trim_space split same_text
requirement_satisfied requirement permissions =
    if requirement == "" then false else require_pair (split b'=' (codes requirement)) permissions

-- The loop over the subcommands of a "deny" command; `fallback` is what follows it.
subcommand_allows : List Subcommand → List ℕ → String → Bool → Bool
subcommand_allows [] subcommand agent fallback = fallback
subcommand_allows (sub ∷ subs) subcommand agent fallback =
    let rest = subcommand_allows subs subcommand agent fallback in
    if same_text (codes sub.name) subcommand
    then string_slice_contains sub.allowed_agents agent
    else rest

deny_rule : SystemCommand → List ℕ → String → List (String × String) → Bool
unfolding subcommand_allows is_blank
deny_rule cmd subcommand agent permissions =
    subcommand_allows cmd.subcommands subcommand agent
      (is_blank subcommand && requirement_satisfied cmd.requires permissions)

allowed_in : List SystemCommand → List ℕ → List ℕ → String → List (String × String) → Bool
unfolding deny_rule
allowed_in [] command subcommand agent permissions = false
allowed_in (cmd ∷ commands) command subcommand agent permissions =
    let rest = allowed_in commands command subcommand agent permissions in
    if not (same_text (codes cmd.name) command)
    then rest
    else if cmd.default == "deny"
    then deny_rule cmd subcommand agent permissions
    else if cmd.default == "allow"
    then true
    else rest

unfoldable pub is_allowed_with_permissions :
    Option (List SystemCommand) → List ℕ → List ℕ → String → List (String × String) → Bool
unfolding allowed_in
is_allowed_with_permissions none command subcommand agent permissions = false
is_allowed_with_permissions (some commands) command subcommand agent permissions =
    allowed_in commands command subcommand agent permissions

unfoldable pub is_allowed : Option (List SystemCommand) → List ℕ → List ℕ → String → Bool
unfolding is_allowed_with_permissions
is_allowed list command subcommand agent =
    is_allowed_with_permissions list command subcommand agent []

pub data BrokerError : Type 0 where
  not_configured : BrokerError
  not_allowed : List ℕ → List ℕ → String → BrokerError

-- ValidateWithPermissions; `none` is the nil error.
unfoldable pub validate_with_permissions :
    Option (List SystemCommand)
    → List ℕ
    → List ℕ
    → String
    → List (String × String)
    → Option BrokerError
unfolding is_allowed_with_permissions
validate_with_permissions none command subcommand agent permissions = some not_configured
validate_with_permissions (some list) command subcommand agent permissions =
    if not (is_allowed_with_permissions (some list) command subcommand agent permissions)
    then some (not_allowed command subcommand agent)
    else none

abbrev push_command : ℕ → List ℕ × List ℕ → List ℕ × List ℕ
push_command c (command, subcommand) = (c ∷ command, subcommand)

-- strings.SplitN(tool, ":", 2), with "" where there is no colon.
unfoldable pub parse_tool_command : List ℕ → List ℕ × List ℕ
parse_tool_command [] = ([], [])
parse_tool_command (c ∷ tool) =
    let rest = parse_tool_command tool in if nat_eq c b':' then ([], tool) else push_command c rest
