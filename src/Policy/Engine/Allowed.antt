-- ===== src/Policy/Engine/Allowed.antt =====
-- NativeEngine.Evaluate (policyengine/engine.go) against its specification.
use ai_governance_orchestrat.Prelude.{
  String, Bool, true, false, not, Option, none, some, ◌&&◌, ◌||◌, List, [], ◌∷◌, ◌≡◌, ◌≢◌, refl,
  sym, subst, ◌∙◌, All, ◌⊎◌, inl, inr, ◌↔◌, ◌==◌, eq_iff, arith, Bool-cases,
}
use ai_governance_orchestrat.Policy.Classification.{Result, ok, err, classification_exceeds_max}
use ai_governance_orchestrat.Policy.Classification.Levels.{classification_exceeds_max-eq-ok_iff}
use ai_governance_orchestrat.Policy.Secrets.{
  SecretPattern, detect_secrets, detect_secrets-eq, matching_names, secret_patterns,
  openrouter_api_key, openai_api_key, aws_access_key_id, private_key, password_assignment,
}
use ai_governance_orchestrat.Prelude.Dict.{lookup}
use ai_governance_orchestrat.Policy.Engine.{
  Request, Any, Anys, text, texts, list, other, nil, cons, only_texts, as_texts, detect_in,
  effective_findings, base_decision, is_empty, string_slice_contains, string_slice_metadata,
  evaluate_mcp_tool_call, check_prompt, check_ceiling, evaluate,
}
use ai_governance_orchestrat.Policy.Engine.Spec.{
  In, TextIn, TextOf, Lists, ToolPermitted, PromptPermitted, Permitted,
}

pub string_slice_contains-In :
    (xs : List String) (x : String) → string_slice_contains xs x ≡ true → In x xs
unfolding string_slice_contains
string_slice_contains-In [] x h = cc
string_slice_contains-In (y ∷ ys) x h = elim (Bool-cases (y == x)) [
  | inl here ↦ inl ((eq_iff y x).0 here)
  | inr differs ↦ inr (string_slice_contains-In ys x (ground arith))
]

pub In-string_slice_contains :
    (xs : List String) (x : String) → In x xs → string_slice_contains xs x ≡ true
unfolding string_slice_contains
In-string_slice_contains [] x m = elim m [ ]
In-string_slice_contains (y ∷ ys) x (inl e) = ground (arith, eq_iff y x)
In-string_slice_contains (y ∷ ys) x (inr m) = ground (arith, In-string_slice_contains ys x m)

only_texts-In : (items : Anys) (x : String) → In x (only_texts items) ↔ TextIn x items
unfolding only_texts
only_texts-In nil x = (λ m. m, λ m. m)
only_texts-In (cons (text s) items) x =
    let (later, back) = only_texts-In items x in
    (
      λ m. elim m [ inl e ↦ inl e | inr t ↦ inr (later t) ],
      λ m. elim m [ inl e ↦ inl e | inr t ↦ inr (back t) ],
    )
only_texts-In (cons (texts ss) items) x = only_texts-In items x
only_texts-In (cons (list ls) items) x = only_texts-In items x
only_texts-In (cons other items) x = only_texts-In items x

as_texts-In : (o : Option Any) (x : String) → In x (as_texts o) ↔ TextOf x o
as_texts-In none x = (λ m. m, λ m. m)
as_texts-In (some (text s)) x = (λ m. m, λ m. m)
as_texts-In (some (texts ss)) x = (λ m. m, λ m. m)
as_texts-In (some (list items)) x = only_texts-In items x
as_texts-In (some other) x = (λ m. m, λ m. m)

-- What stringSliceMetadata gives is what the metadata lists.
string_slice_metadata-In :
    (metadata : List (String × Any)) (key x : String)
    → In x (string_slice_metadata metadata key) ↔ Lists metadata key x
unfolding string_slice_metadata
string_slice_metadata-In metadata key x = as_texts-In (lookup key metadata) x

is_empty_or :
    (xs : List String) (x : String)
    → (not (is_empty xs) && not (string_slice_contains xs x)) ≡ false
    → ((y : String) → ¬ (In y xs)) ⊎ In x xs
is_empty_or [] x h = inl (λ y m. m)
is_empty_or (y ∷ ys) x h = inr (string_slice_contains-In (y ∷ ys) x (ground arith))

or_is_empty :
    (xs : List String) (x : String)
    → ((y : String) → ¬ (In y xs)) ⊎ In x xs
    → (not (is_empty xs) && not (string_slice_contains xs x)) ≡ false
or_is_empty [] x (inl e) = refl
or_is_empty (y ∷ ys) x (inl e) = absurd (e y (inl refl))
or_is_empty xs x (inr m) = rw (In-string_slice_contains xs x m) (ground arith)

listed :
    (xs : List String) (x : String)
    → (is_empty xs || not (string_slice_contains xs x)) ≡ false
    → In x xs
listed [] x h = cc
listed (y ∷ ys) x h = string_slice_contains-In (y ∷ ys) x (ground arith)

not_listed :
    (xs : List String) (x : String)
    → In x xs
    → (is_empty xs || not (string_slice_contains xs x)) ≡ false
not_listed [] x m = elim m [ ]
not_listed (y ∷ ys) x m = ground (arith, In-string_slice_contains (y ∷ ys) x m)

module _ {Usd : Type 0} (req : Request Usd) (id : String) where
  in_list :
      (key x : String) → In x (string_slice_metadata req.metadata key) ↔ Lists req.metadata key x
  in_list key x = string_slice_metadata-In req.metadata key x

  mcp_allowed-ToolPermitted :
      (evaluate_mcp_tool_call req (base_decision id)).allowed ≡ true → ToolPermitted req
  unfolding evaluate_mcp_tool_call
  mcp_allowed-ToolPermitted h = (
    elim (is_empty_or (string_slice_metadata req.metadata "allowed_agents") req.agent_name
        (ground arith)) [
          | inl nobody ↦ inl (λ agent m. nobody agent ((in_list "allowed_agents" agent).1 m))
          | inr m ↦ inr ((in_list "allowed_agents" req.agent_name).0 m)
        ],
    λ m. absurd (
        ground (
          arith,
          In-string_slice_contains (string_slice_metadata req.metadata "tool_deny") req.tool_name
              ((in_list "tool_deny" req.tool_name).1 m),
        )),
    (in_list "tool_allow" req.tool_name).0
        (listed (string_slice_metadata req.metadata "tool_allow") req.tool_name (ground arith)),
  )

  ToolPermitted-mcp_allowed :
      ToolPermitted req → (evaluate_mcp_tool_call req (base_decision id)).allowed ≡ true
  unfolding evaluate_mcp_tool_call
  ToolPermitted-mcp_allowed (agents, deny, allow) =
      let a =
        or_is_empty (string_slice_metadata req.metadata "allowed_agents") req.agent_name
          (elim agents [
            | inl nobody ↦ inl (λ agent m. nobody agent ((in_list "allowed_agents" agent).0 m))
            | inr m ↦ inr ((in_list "allowed_agents" req.agent_name).1 m)
          ]) in
      let l =
        not_listed (string_slice_metadata req.metadata "tool_allow") req.tool_name
          ((in_list "tool_allow" req.tool_name).1 allow) in
      elim (Bool-cases
        (string_slice_contains (string_slice_metadata req.metadata "tool_deny") req.tool_name)) [
          | inl d ↦
              absurd (deny ((in_list "tool_deny" req.tool_name).0 (string_slice_contains-In _ _ d)))
          | inr d ↦ rw (a, d, l)
        ]

matching_names-nil :
    (matches : SecretPattern → String → Bool) (prompt : String) (ps : List SecretPattern)
    → matching_names matches prompt ps ≡ []
    → All (λ p. matches p prompt ≡ false) ps
matching_names-nil matches prompt [] e = tt
matching_names-nil matches prompt (p ∷ ps) e =
    let rest = matching_names-nil matches prompt ps in (ground arith, rest (ground arith))

-- DetectSecrets finds something where a pattern matches.
detect_secrets-nil :
    (matches : SecretPattern → String → Bool) (prompt : String)
    → detect_secrets matches prompt ≡ []
    → (pattern_ : SecretPattern) → matches pattern_ prompt ≡ false
detect_secrets-nil matches prompt e pattern_ =
    let (a, (b, (c, (d, (p, end))))) =
      matching_names-nil matches prompt secret_patterns
        (sym (detect_secrets-eq matches prompt) ∙ e) in
    elim pattern_ as (λ p'. matches p' prompt ≡ false) [
      | openrouter_api_key ↦ a
      | openai_api_key ↦ b
      | aws_access_key_id ↦ c
      | private_key ↦ d
      | password_assignment ↦ p
    ]

-- It finds nothing where none matches.
nil-detect_secrets :
    (matches : SecretPattern → String → Bool) (prompt : String)
    → ((pattern_ : SecretPattern) → matches pattern_ prompt ≡ false)
    → detect_secrets matches prompt ≡ []
nil-detect_secrets matches prompt clean =
    detect_secrets-eq matches prompt
    ∙ rw
        (
          clean openrouter_api_key,
          clean openai_api_key,
          clean aws_access_key_id,
          clean private_key,
          clean password_assignment,
        )
        refl

-- No findings, and no secret in the prompt of the metadata.
abbrev Clean : (SecretPattern → String → Bool) → List String → Option Any → Type 0
Clean matches findings o =
    (findings ≡ [])
    × ((prompt : String)
        → o ≡ some (text prompt)
        → prompt ≢ ""
        → (pattern_ : SecretPattern) → matches pattern_ prompt ≡ false)

detect_in-Clean :
    (matches : SecretPattern → String → Bool) (o : Option Any)
    → detect_in matches o ≡ []
    → (prompt : String) → o ≡ some (text prompt)
    → prompt ≢ ""
    → (pattern_ : SecretPattern) → matches pattern_ prompt ≡ false
detect_in-Clean matches o e prompt found given =
    let e' = subst (λ x. detect_in matches x ≡ []) found e in
    detect_secrets-nil matches prompt (ground (arith, eq_iff prompt ""))

Clean-detect_in :
    (matches : SecretPattern → String → Bool) (o : Option Any)
    → ((prompt : String)
        → o ≡ some (text prompt)
        → prompt ≢ ""
        → (pattern_ : SecretPattern) → matches pattern_ prompt ≡ false)
    → detect_in matches o ≡ []
Clean-detect_in matches none clean = refl
Clean-detect_in matches (some (text prompt)) clean = elim (Bool-cases (prompt == "")) [
  | inl blank ↦ rw blank refl
  | inr given ↦ rw given (
      nil-detect_secrets matches prompt (clean prompt refl (λ e. ground (arith, eq_iff prompt ""))))
]
Clean-detect_in matches (some (texts ss)) clean = refl
Clean-detect_in matches (some (list items)) clean = refl
Clean-detect_in matches (some other) clean = refl

effective_findings-Clean :
    (matches : SecretPattern → String → Bool) (findings : List String)
    (metadata : List (String × Any))
    → effective_findings matches findings metadata ≡ []
    → Clean matches findings (lookup "prompt" metadata)
effective_findings-Clean matches [] metadata e =
    (refl, detect_in-Clean matches (lookup "prompt" metadata) e)
effective_findings-Clean matches (f ∷ fs) metadata e = absurd (cc)

Clean-effective_findings :
    (matches : SecretPattern → String → Bool) (findings : List String)
    (metadata : List (String × Any))
    → Clean matches findings (lookup "prompt" metadata)
    → effective_findings matches findings metadata ≡ []
Clean-effective_findings matches [] metadata (none_brought, clean) =
    Clean-detect_in matches (lookup "prompt" metadata) clean
Clean-effective_findings matches (f ∷ fs) metadata (brought, clean) = absurd (cc)

module _ {Usd : Type 0} (gt : Usd → Usd → Bool) (zero_usd : Usd)
    (matches : SecretPattern → String → Bool) (req : Request Usd) (id : String) where
  prompt_allowed-PromptPermitted :
      (check_prompt gt zero_usd matches req id).allowed ≡ true
      → PromptPermitted gt zero_usd matches req
  unfolding check_prompt
  prompt_allowed-PromptPermitted h =
      let clean = effective_findings-Clean matches req.findings req.metadata (ground arith) in
      (clean.0, clean.1, λ enabled positive. ground arith)

  PromptPermitted-prompt_allowed :
      PromptPermitted gt zero_usd matches req
      → (check_prompt gt zero_usd matches req id).allowed ≡ true
  unfolding check_prompt
  PromptPermitted-prompt_allowed (findings, prompt, cheap) =
      rw (Clean-effective_findings matches req.findings req.metadata (findings, prompt))
        (ground arith)

  ceiling_allowed-Permitted :
      (r : Result Bool)
      → classification_exceeds_max req.classification req.classification_max ≡ r
      → (check_ceiling gt zero_usd matches req id r).allowed ≡ true
      → Permitted gt zero_usd matches req
  unfolding check_ceiling
  ceiling_allowed-Permitted (err u) e h = cc
  ceiling_allowed-Permitted (ok true) e h = cc
  ceiling_allowed-Permitted (ok false) e h =
      let (l, m, nl, nm, below) =
        (classification_exceeds_max-eq-ok_iff req.classification req.classification_max false).0
          e in
      (
        (l, m, nl, nm, sym below),
        λ mcp.
            mcp_allowed-ToolPermitted req id
              (ground (arith, eq_iff req.action_type "mcp.tool_call")),
        λ plain.
            prompt_allowed-PromptPermitted (ground (arith, eq_iff req.action_type "mcp.tool_call")),
      )

  Permitted-ceiling_allowed :
      (tool : req.action_type ≡ "mcp.tool_call" → ToolPermitted req)
      → (prompt : req.action_type ≢ "mcp.tool_call" → PromptPermitted gt zero_usd matches req)
      → (check_ceiling gt zero_usd matches req id (ok false)).allowed ≡ true
  unfolding check_ceiling
  Permitted-ceiling_allowed tool prompt = elim (Bool-cases (req.action_type == "mcp.tool_call")) [
    | inl mcp ↦
        rw mcp
          (ToolPermitted-mcp_allowed req id (tool ((eq_iff req.action_type "mcp.tool_call").0 mcp)))
    | inr plain ↦ rw plain (
        PromptPermitted-prompt_allowed
          (prompt (λ e. ground (arith, eq_iff req.action_type "mcp.tool_call"))))
  ]

  -- The engine allows a request exactly if it is permitted: both classification texts name a level
  -- and the ceiling is not exceeded; an MCP tool call comes from a listed agent (or none is listed)
  -- for a tool that is on the allow list and not on the deny list; anything else comes with no
  -- findings and with a prompt that no secret pattern matches, and costs no more than an enabled
  -- positive cap.
  pub evaluate-allowed_iff :
      ((evaluate gt zero_usd matches req id).allowed ≡ true) ↔ Permitted gt zero_usd matches req
  unfolding evaluate
  evaluate-allowed_iff = (
    ceiling_allowed-Permitted _ refl,
    λ ((l, m, nl, nm, below), tool, prompt).
        rw
          ((classification_exceeds_max-eq-ok_iff req.classification req.classification_max false).1
            (l, m, nl, nm, sym below))
          (Permitted-ceiling_allowed tool prompt),
  )
