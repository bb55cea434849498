-- ===== src/Policy/Engine/Spec.antt =====
-- A specification of the native engine (policyengine/engine.go), without reference to its functions:
-- it speaks of the request's fields, and of the metadata as a dictionary.
use ai_governance_orchestrat.Prelude.Dict.{lookup}
use ai_governance_orchestrat.Prelude.{
  String, Bool, true, false, Option, none, some, List, [], ◌∷◌, ◌≡◌, ◌≢◌, ◌⊎◌, ltb,
}
use ai_governance_orchestrat.Policy.Classification.Levels.{Level, Names, rank}
use ai_governance_orchestrat.Policy.Secrets.{SecretPattern}
use ai_governance_orchestrat.Policy.Engine.{Request, Any, Anys, text, texts, list, other, nil, cons}

-- Membership, as a disjunction.
abbrev pub In : String → List String → Type 0
In x [] = ⊥
In x (y ∷ ys) = (y ≡ x) ⊎ In x ys

-- The texts among a list of any values.
abbrev pub TextIn : String → Anys → Type 0
TextIn x nil = ⊥
TextIn x (cons (text s) items) = (s ≡ x) ⊎ TextIn x items
TextIn x (cons (texts ss) items) = TextIn x items
TextIn x (cons (list ls) items) = TextIn x items
TextIn x (cons other items) = TextIn x items

abbrev pub TextOf : String → Option Any → Type 0
TextOf x none = ⊥
TextOf x (some (text s)) = ⊥
TextOf x (some (texts ss)) = In x ss
TextOf x (some (list items)) = TextIn x items
TextOf x (some other) = ⊥

-- The metadata lists a text under a key: its value there is a list that holds it.
abbrev pub Lists : List (String × Any) → String → String → Type 0
Lists metadata key x = TextOf x (lookup key metadata)

module _ {Usd : Type 0} where
  -- Both levels are known, and the request's is not above its ceiling.
  abbrev pub WithinCeiling : Request Usd → Type 0
  WithinCeiling req =
      (l m : Level) × Names req.classification l
      × Names req.classification_max m
      × (ltb (rank m) (rank l) ≡ false)

  -- A tool call is permitted to a listed agent (any agent, if none is listed), for a tool that is
  -- listed as allowed and not listed as denied.
  abbrev pub ToolPermitted : Request Usd → Type 0
  ToolPermitted req =
      (((agent : String) → ¬ (Lists req.metadata "allowed_agents" agent))
        ⊎ Lists req.metadata "allowed_agents" req.agent_name)
      × (¬ (Lists req.metadata "tool_deny" req.tool_name))
      × Lists req.metadata "tool_allow" req.tool_name

module _ {Usd : Type 0} (gt : Usd → Usd → Bool) (zero_usd : Usd)
    (matches : SecretPattern → String → Bool) where
  -- A prompt is permitted if the request brings no findings, no secret pattern matches its text, and
  -- its cost is not above an enabled positive cap.
  abbrev pub PromptPermitted : Request Usd → Type 0
  PromptPermitted req =
      (req.findings ≡ [])
      × ((prompt : String)
          → lookup "prompt" req.metadata ≡ some (text prompt)
          → prompt ≢ ""
          → (pattern_ : SecretPattern) → matches pattern_ prompt ≡ false)
      × (req.cost_cap_enabled ≡ true
          → gt req.session_cost_cap_usd zero_usd ≡ true
          → gt req.estimated_cost_usd req.session_cost_cap_usd ≡ false)

  abbrev pub Permitted : Request Usd → Type 0
  Permitted req =
      WithinCeiling req
      × (req.action_type ≡ "mcp.tool_call" → ToolPermitted req)
      × (req.action_type ≢ "mcp.tool_call" → PromptPermitted req)
