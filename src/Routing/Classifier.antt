-- ===== src/Routing/Classifier.antt =====
-- ai-agent-orch/internal/classifier/classifier.go. Lowercased texts are code points; the request's
-- fields that no rule reads are left out. The assistant is a function of the request, an argument,
-- whose answer is `none` where it reports an error; its confidence is a value of a type with an
-- order.
pub mod Keywords
pub mod Advice
use ai_governance_orchestrat.Prelude.Text.{codes, to_lower, contains}
use ai_governance_orchestrat.Prelude.{
  ℕ, String, Bool, true, false, ◌&&◌, ◌||◌, not, Option, none, some, List, [], ◌∷◌, ◌++◌, ◌==◌,
  if◌then◌else◌,
}

pub record Request : Type 0 where
  pub prompt : String
  pub branch : String
  pub classification : String

-- The lines of the reasons, with the values that they are formatted from.
pub data Line (Confidence : Type 0) : Type 0 where
  task_type_line use_case_line workflow_line : String → Line Confidence
  agent_profile_line model_route_line : String → Line Confidence
  evidence_line : List String → Line Confidence
  posture_line : String → String → String → Line Confidence
  llm_suggestion : String → String → Confidence → String → Line Confidence
  llm_disagreement : String → String → Line Confidence

pub record Result (Confidence : Type 0) : Type 0 where
  pub task_type : String
  pub use_case : String
  pub workflow : String
  pub agent_profile : String
  pub model_route : String
  pub evidence_requirements : List String
  pub reasons : List (Line Confidence)
  pub cost_posture : String
  pub latency_posture : String
  pub risk_level : String

pub record Suggestion (Confidence : Type 0) : Type 0 where
  pub task_type : String
  pub agent_profile : String
  pub confidence : Confidence
  pub reason : String

unfoldable pub contains_any : List ℕ → List String → Bool
contains_any text [] = false
contains_any text (s ∷ substrs) =
    let rest = contains_any text substrs in if contains text (codes s) then true else rest

abbrev security_words : List String
security_words =
    "security" ∷ "secret" ∷ "auth" ∷ "vulnerability" ∷ "dependency risk" ∷ "data exposure" ∷ []

abbrev test_words : List String
test_words =
    "test" ∷ "tests" ∷ "testing" ∷ "playwright" ∷ "unit test" ∷ "integration test" ∷ "coverage"
    ∷ "regression" ∷ []

abbrev infrastructure_words : List String
infrastructure_words = "terraform" ∷ "infrastructure" ∷ "iac" ∷ "cloudformation" ∷ []

abbrev architecture_words : List String
architecture_words =
    "architecture" ∷ "design" ∷ "boundary" ∷ "data flow" ∷ "service" ∷ "deployment shape" ∷ []

abbrev frontend_words : List String
frontend_words =
    "frontend" ∷ "ui" ∷ "react" ∷ "component" ∷ "css" ∷ "html" ∷ "vue" ∷ "svelte" ∷ "angular" ∷ []

abbrev backend_words : List String
backend_words = "backend" ∷ "api" ∷ "server" ∷ "database" ∷ "microservice" ∷ []

abbrev refactor_words : List String
refactor_words = "refactor" ∷ "cleanup" ∷ "clean up" ∷ "reorganize" ∷ "simplify" ∷ "rename" ∷ []

abbrev document_words : List String
document_words = "document" ∷ "readme" ∷ "docs" ∷ "documentation" ∷ "api explanation" ∷ []

abbrev review_words : List String
review_words = "review" ∷ "audit" ∷ "inspect" ∷ "validate" ∷ "verify" ∷ []

abbrev build_words : List String
build_words = "implement" ∷ "build" ∷ "create" ∷ "develop" ∷ "write code" ∷ "add feature" ∷ []

unfoldable pub classify_task_type : List ℕ → String
classify_task_type text =
    if contains_any text security_words
    then "security_scan"
    else if contains_any text test_words
    then "test_generation"
    else if contains_any text infrastructure_words
    then "infrastructure_review"
    else if contains_any text architecture_words
    then "architecture_review"
    else if contains_any text frontend_words
    then "frontend_development"
    else if contains_any text backend_words
    then "backend_development"
    else if contains_any text refactor_words
    then "refactor"
    else if contains_any text document_words
    then "documentation"
    else if contains_any text review_words
    then "review"
    else if contains_any text build_words
    then "implementation"
    else "general"

-- The tasks that write code.
abbrev is_delivery : String → Bool
is_delivery task =
    task == "implementation" || task == "backend_development" || task == "frontend_development"

unfoldable pub classify_use_case : String → List ℕ → String
classify_use_case task branch =
    if task == "test_generation"
    then "quality_assurance"
    else if task == "review"
    then "code_quality"
    else if task == "refactor"
    then "maintenance"
    else if task == "documentation"
    then "knowledge_management"
    else if task == "security_scan"
    then "security_compliance"
    else if task == "architecture_review"
    then "design_governance"
    else if task == "infrastructure_review"
    then "platform_governance"
    else if is_delivery task
    then "feature_delivery"
    else "general"

unfoldable pub classify_workflow : String → String
classify_workflow task =
    if is_delivery task
    then "plan_execute_review"
    else if task == "test_generation"
    then "plan_execute_verify"
    else if task == "review"
        || task == "security_scan"
        || task == "architecture_review"
        || task == "infrastructure_review"
    then "investigate_report"
    else if task == "refactor"
    then "plan_execute_verify"
    else if task == "documentation"
    then "draft_review_publish"
    else "investigate_plan"

unfoldable pub classify_agent_profile : String → String
classify_agent_profile task =
    if task == "test_generation"
    then "unit-tests"
    else if task == "review"
    then "code-review"
    else if task == "refactor"
    then "refactor"
    else if task == "documentation"
    then "documentation"
    else if task == "security_scan"
    then "security-scan"
    else if task == "architecture_review"
    then "architecture-review"
    else if task == "infrastructure_review"
    then "terraform-review"
    else if task == "implementation"
    then "backend-development"
    else if task == "backend_development"
    then "backend-development"
    else if task == "frontend_development"
    then "frontend-development"
    else "code-review"

unfoldable pub classify_model_route : String → String → String
classify_model_route task classification =
    if task == "security_scan" || task == "architecture_review" || task == "infrastructure_review"
    then "coding-primary"
    else if task == "test_generation" || task == "review"
    then (if classification == "restricted" || classification == "confidential"
        then "coding-primary"
        else "coding-balanced")
    else if is_delivery task
    then "coding-balanced"
    else if task == "refactor" || task == "documentation"
    then "coding-fast"
    else "coding-balanced"

unfoldable pub classify_evidence_requirements : String → List String
classify_evidence_requirements task =
    if task == "test_generation"
    then "test_results" ∷ "coverage_report" ∷ []
    else if task == "review"
    then "review_findings" ∷ "risk_assessment" ∷ []
    else if task == "security_scan"
    then "security_findings" ∷ "remediation_plan" ∷ []
    else if task == "architecture_review"
    then "design_review" ∷ "tradeoff_analysis" ∷ []
    else if task == "infrastructure_review"
    then "cost_analysis" ∷ "compliance_check" ∷ []
    else if is_delivery task
    then "implementation_notes" ∷ "test_results" ∷ []
    else "summary" ∷ []

unfoldable pub classify_risk_level : List ℕ → List ℕ → String
classify_risk_level text branch =
    if contains_any text
      ("security" ∷ "secret" ∷ "auth" ∷ "production" ∷ "prod" ∷ "live" ∷ "customer data" ∷ [])
    then "high"
    else if contains_any branch ("hotfix" ∷ "security" ∷ "prod" ∷ [])
    then "high"
    else if contains_any text ("refactor" ∷ "cleanup" ∷ "documentation" ∷ "readme" ∷ [])
    then "low"
    else "medium"

unfoldable pub classify_cost_posture : String → String
classify_cost_posture task =
    if task == "refactor" || task == "documentation"
    then "economy"
    else if task == "security_scan" || task == "architecture_review"
    then "performance"
    else "controlled"

unfoldable pub classify_latency_posture : String → String
classify_latency_posture task =
    if task == "refactor" || task == "documentation"
    then "fast"
    else if task == "security_scan" || task == "architecture_review"
    then "thorough"
    else "balanced"

-- Steps 1 to 7 for a task type, with the lowercased prompt and branch.
unfoldable pub decide :
    {Confidence : Type 0} → String → List ℕ → List ℕ → String → Result Confidence
decide task text branch classification =
    let use_case = classify_use_case task branch in
    let workflow = classify_workflow task in
    let agent_profile = classify_agent_profile task in
    let model_route = classify_model_route task classification in
    let evidence = classify_evidence_requirements task in
    let risk = classify_risk_level text branch in
    let cost = classify_cost_posture task in
    let latency = classify_latency_posture task in
    record {
      task_type = task;
      use_case = use_case;
      workflow = workflow;
      agent_profile = agent_profile;
      model_route = model_route;
      evidence_requirements = evidence;
      reasons =
          task_type_line task
          ∷ use_case_line use_case
          ∷ workflow_line workflow
          ∷ agent_profile_line agent_profile
          ∷ model_route_line model_route
          ∷ evidence_line evidence
          ∷ posture_line risk cost latency
          ∷ [];
      cost_posture = cost;
      latency_posture = latency;
      risk_level = risk;
    }

module _ {Confidence : Type 0} (gt : Confidence → Confidence → Bool)
    (half four_fifths : Confidence) where
  -- Step 8 on an answer of the assistant.
  record_advice : Result Confidence → Option (Suggestion Confidence) → Result Confidence
  record_advice result none = result
  record_advice result (some s) =
      let heard = record result {
        reasons =
            result.reasons ++ llm_suggestion s.task_type s.agent_profile s.confidence s.reason ∷ [];
      } in
      if not (gt s.confidence half)
      then result
      else if not (s.agent_profile == result.agent_profile) && gt s.confidence four_fifths
      then record heard {
        reasons = heard.reasons ++ llm_disagreement result.agent_profile s.agent_profile ∷ [];
      }
      else heard

  -- A nil assistant is `none`.
  abbrev ask :
      Option (Request → Option (Suggestion Confidence)) → Request → Option (Suggestion Confidence)
  ask none req = none
  ask (some suggest) req = suggest req

  unfoldable pub classify :
      Option (Request → Option (Suggestion Confidence)) → Request → Result Confidence
  unfolding record_advice decide
  classify llm req =
      let text = to_lower (codes req.prompt) in
      let branch = to_lower (codes req.branch) in
      record_advice (decide (classify_task_type text) text branch req.classification) (ask llm req)
