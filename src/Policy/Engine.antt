-- ===== src/Policy/Engine.antt =====
-- NativeEngine of ai-agent-orch/internal/policyengine/engine.go. A `float64` amount is a value of a
-- type `Usd` with its order `gt`, both arguments; the metadata's `any` values are texts, lists of
-- texts, lists of any values, or something else.
pub mod Spec
pub mod Allowed
use ai_governance_orchestrat.Prelude.{
  String, Bool, true, false, not, ◌&&◌, ◌||◌, Option, none, some, List, [], ◌∷◌, ◌==◌,
  if◌then◌else◌,
}
use ai_governance_orchestrat.Prelude.Dict.{lookup}
use ai_governance_orchestrat.Policy.Classification.{
  Unknown, Result, ok, err, classification_exceeds_max,
}
use ai_governance_orchestrat.Policy.Secrets.{SecretPattern, detect_secrets}

mutual
  pub data Any : Type 0 where
    text : String → Any
    texts : List String → Any
    list : Anys → Any
    other : Any

  pub data Anys : Type 0 where
    nil : Anys
    cons : Any → Anys → Anys

pub record Request (Usd : Type 0) : Type 0 where
  pub session_id : String
  pub user_id : String
  pub agent_name : String
  pub action_type : String
  pub resource : String
  pub tool_name : String
  pub classification : String
  pub classification_max : String
  pub findings : List String
  pub metadata : List (String × Any)
  pub cost_cap_enabled : Bool
  pub session_cost_cap_usd : Usd
  pub estimated_cost_usd : Usd

-- The reasons that Evaluate gives, with the values that their texts are formatted from.
pub data Reason : Type 0 where
  allowed_reason secret_detected cost_cap_exceeded mcp_tool_allowed : Reason
  unknown_level : Unknown → Reason
  exceeds_max : String → String → Reason
  agent_not_allowed : String → String → Reason
  tool_denied : String → Reason
  tool_not_in_allow_list : String → Reason

pub record Decision : Type 0 where
  pub allowed : Bool
  pub requires_approval : Bool
  pub reason : Reason
  pub engine : String
  pub decision_id : String
  pub findings : List String

abbrev base_decision : String → Decision
base_decision id = record {
  allowed = true;
  requires_approval = false;
  reason = allowed_reason;
  engine = "native";
  decision_id = id;
  findings = [];
}

abbrev denied : String → Reason → List String → Decision
denied id why findings = record (base_decision id) {
  allowed = false;
  reason = why;
  findings = findings;
}

unfoldable pub string_slice_contains : List String → String → Bool
string_slice_contains [] needle = false
string_slice_contains (value ∷ values) needle =
    value == needle || string_slice_contains values needle

-- The texts among a `[]any`.
unfoldable only_texts : Anys → List String
only_texts nil = []
only_texts (cons (text s) items) = s ∷ only_texts items
only_texts (cons item items) = only_texts items

abbrev as_texts : Option Any → List String
as_texts none = []
as_texts (some (texts values)) = values
as_texts (some (list items)) = only_texts items
as_texts (some (text s)) = []
as_texts (some other) = []

-- A nil map has no key, so `metadata == nil` is the empty list.
unfoldable pub string_slice_metadata : List (String × Any) → String → List String
unfolding lookup only_texts
string_slice_metadata metadata key = as_texts (lookup key metadata)

abbrev is_empty {ℓ} : {A : Type ℓ} → List A → Bool
is_empty [] = true
is_empty (x ∷ xs) = false

-- `findings` of the request, or what DetectSecrets finds in the prompt of the metadata.
abbrev detect_in : (SecretPattern → String → Bool) → Option Any → List String
detect_in matches (some (text prompt)) = if prompt == "" then [] else detect_secrets matches prompt
detect_in matches o = []

abbrev pub effective_findings :
    (SecretPattern → String → Bool) → List String → List (String × Any) → List String
effective_findings matches [] metadata = detect_in matches (lookup "prompt" metadata)
effective_findings matches (f ∷ fs) metadata = f ∷ fs

module _ {Usd : Type 0} where
  pub evaluate_mcp_tool_call : Request Usd → Decision → Decision
  evaluate_mcp_tool_call req decision =
      let allowed_agents = string_slice_metadata req.metadata "allowed_agents" in
      let tool_allow = string_slice_metadata req.metadata "tool_allow" in
      let tool_deny = string_slice_metadata req.metadata "tool_deny" in
      if not (is_empty allowed_agents) && not (string_slice_contains allowed_agents req.agent_name)
      then record decision {
        allowed = false;
        reason = agent_not_allowed req.agent_name req.resource;
      }
      else if string_slice_contains tool_deny req.tool_name
      then record decision { allowed = false; reason = tool_denied req.tool_name }
      else if is_empty tool_allow || not (string_slice_contains tool_allow req.tool_name)
      then record decision { allowed = false; reason = tool_not_in_allow_list req.tool_name }
      else record decision { reason = mcp_tool_allowed }

module _ {Usd : Type 0} (gt : Usd → Usd → Bool) (zero_usd : Usd)
    (matches : SecretPattern → String → Bool) where
  -- Secret detection and the cost cap.
  check_prompt : Request Usd → String → Decision
  check_prompt req id =
      let findings = effective_findings matches req.findings req.metadata in
      if not (is_empty findings)
      then denied id secret_detected findings
      else if req.cost_cap_enabled
          && gt req.session_cost_cap_usd zero_usd
          && gt req.estimated_cost_usd req.session_cost_cap_usd
      then denied id cost_cap_exceeded []
      else base_decision id

  check_ceiling : Request Usd → String → Result Bool → Decision
  unfolding check_prompt evaluate_mcp_tool_call
  check_ceiling req id (err unknown) = denied id (unknown_level unknown) []
  check_ceiling req id (ok true) =
      denied id (exceeds_max req.classification req.classification_max) []
  check_ceiling req id (ok false) =
      if req.action_type == "mcp.tool_call"
      then evaluate_mcp_tool_call req (base_decision id)
      else check_prompt req id

  -- Evaluate; `id` is the fresh decision id.
  unfoldable pub evaluate : Request Usd → String → Decision
  unfolding check_ceiling
  evaluate req id =
      check_ceiling req id (classification_exceeds_max req.classification req.classification_max)
