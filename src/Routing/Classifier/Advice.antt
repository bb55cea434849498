-- ===== src/Routing/Classifier/Advice.antt =====
-- What the assistant's answer does to a classification (classifier/classifier.go).
use mathlib.Core.List.{append-nil, append_assoc}
use ai_governance_orchestrat.Prelude.{
  ℕ, ◌≤◌, Bool, true, false, Option, none, some, List, [], ◌∷◌, ◌++◌, ◌≡◌, refl, sym, ap, arith,
  length, not, ◌&&◌, ◌==◌, if◌then◌else◌,
}
use ai_governance_orchestrat.Routing.Classifier.{
  Request, Result, Line, Suggestion, record_advice, classify, llm_suggestion, llm_disagreement,
}

module _ {Confidence : Type 0} where
  -- The result with some lines after its reasons, and nothing else changed.
  abbrev pub noted : Result Confidence → List (Line Confidence) → Result Confidence
  noted result notes = record result { reasons = result.reasons ++ notes }

  -- The result is as another one, but for at most `n` more reasons.
  abbrev pub Noted : ℕ → Result Confidence → Result Confidence → Type 0
  Noted n result heard =
      (notes : List (Line Confidence)) × (length notes ≤ n) × (heard ≡ noted result notes)

  Noted-self : (n : ℕ) (result : Result Confidence) → Noted n result result
  Noted-self n result =
      ([], omega arith, ap (λ r. record result { reasons = r }) (sym (append-nil result.reasons)))

  Noted-if :
      (n : ℕ) (b : Bool) (result x y : Result Confidence)
      → Noted n result x
      → Noted n result y
      → Noted n result (if b then x else y)
  Noted-if n true result x y nx ny = nx
  Noted-if n false result x y nx ny = ny

module _ {Confidence : Type 0} (gt : Confidence → Confidence → Bool)
    (half four_fifths : Confidence) where
  record_advice-Noted :
      (result : Result Confidence) (o : Option (Suggestion Confidence))
      → Noted 2 result (record_advice gt half four_fifths result o)
  unfolding record_advice
  record_advice-Noted result none = Noted-self 2 result
  record_advice-Noted result (some s) =
      let said = llm_suggestion s.task_type s.agent_profile s.confidence s.reason in
      let disagrees = llm_disagreement result.agent_profile s.agent_profile in
      Noted-if 2 (not (gt s.confidence half)) result _ _ (Noted-self 2 result) (
        Noted-if 2 (not (s.agent_profile == result.agent_profile) && gt s.confidence four_fifths)
          result _ _
          (
            said ∷ disagrees ∷ [],
            omega arith,
            ap (λ r. record result { reasons = r })
                (append_assoc result.reasons (said ∷ []) (disagrees ∷ [])),
          )
          (said ∷ [], omega arith, refl))

  -- Whatever an assistant answers, the classification is the one without an assistant, but for at
  -- most two more lines at the end of its reasons.
  pub classify-Noted :
      (llm : Option (Request → Option (Suggestion Confidence))) (req : Request)
      → Noted 2 (classify gt half four_fifths none req) (classify gt half four_fifths llm req)
  unfolding classify
  classify-Noted none req = Noted-self 2 _
  classify-Noted (some suggest) req = record_advice-Noted _ (suggest req)
