-- ===== src/Routing/Classifier/Keywords.antt =====
-- Security words of the prompt in the tables of classifier/classifier.go.
use ai_governance_orchestrat.Prelude.Text.{codes, to_lower}
use ai_governance_orchestrat.Prelude.{
  ℕ, String, Bool, true, Option, List, [], ◌∷◌, ◌++◌, ◌≡◌, refl, arith,
}
use ai_governance_orchestrat.Routing.Classifier.{
  Request, Result, Suggestion, contains_any, classify_task_type, classify_risk_level, classify,
  decide, classify_agent_profile, classify_model_route, classify_cost_posture,
  classify_latency_posture,
}
use ai_governance_orchestrat.Routing.Classifier.Advice.{classify-Noted}

-- The words that both the task and the risk look for.
abbrev pub shared_words : List String
shared_words = "security" ∷ "secret" ∷ "auth" ∷ []

contains_any-append :
    (text : List ℕ) (xs ys : List String)
    → contains_any text xs ≡ true
    → contains_any text (xs ++ ys) ≡ true
unfolding contains_any
contains_any-append text [] ys e = absurd (cc)
contains_any-append text (x ∷ xs) ys e = ground (arith, contains_any-append text xs ys)

task_of :
    (text : List ℕ)
    → contains_any text shared_words ≡ true
    → classify_task_type text ≡ "security_scan"
unfolding classify_task_type
task_of text e =
    rw
      (contains_any-append text shared_words
        ("vulnerability" ∷ "dependency risk" ∷ "data exposure" ∷ []) e)
      refl

risk_of :
    (text branch : List ℕ)
    → contains_any text shared_words ≡ true
    → classify_risk_level text branch ≡ "high"
unfolding classify_risk_level
risk_of text branch e =
    rw
      (contains_any-append text shared_words ("production" ∷ "prod" ∷ "live" ∷ "customer data" ∷ [])
        e)
      refl

-- How a security scan is run.
abbrev pub IsSecurityScan : {Confidence : Type 0} → Result Confidence → Type 0
IsSecurityScan r =
    (r.task_type ≡ "security_scan")
    × (r.agent_profile ≡ "security-scan")
    × (r.model_route ≡ "coding-primary")
    × (r.risk_level ≡ "high")
    × (r.cost_posture ≡ "performance")
    × (r.latency_posture ≡ "thorough")

decide-IsSecurityScan :
    (Confidence : Type 0) (task : String) (text branch : List ℕ) (classification : String)
    → task ≡ "security_scan"
    → contains_any text shared_words ≡ true
    → IsSecurityScan (decide {Confidence = Confidence} task text branch classification)
unfolding decide classify_agent_profile classify_model_route classify_cost_posture
    classify_latency_posture
decide-IsSecurityScan Confidence task text branch classification t e =
    rw (t, risk_of text branch e) (refl, refl, refl, refl, refl, refl)

module _ {Confidence : Type 0} (gt : Confidence → Confidence → Bool)
    (half four_fifths : Confidence) where
  -- A prompt that holds "security", "secret" or "auth", in any case of letters, is classified as a
  -- security scan at high risk, for the security agent and the primary model, whatever the branch,
  -- the classification and the assistant say.
  pub classify-IsSecurityScan :
      (llm : Option (Request → Option (Suggestion Confidence))) (req : Request)
      → contains_any (to_lower (codes req.prompt)) shared_words ≡ true
      → IsSecurityScan (classify gt half four_fifths llm req)
  unfolding classify
  classify-IsSecurityScan llm req e =
      let (notes, few, same) = classify-Noted gt half four_fifths llm req in
      let text = to_lower (codes req.prompt) in
      rw same (
        decide-IsSecurityScan Confidence (classify_task_type text) text
          (to_lower (codes req.branch)) req.classification (task_of text e) e)
