-- ===== src/Policy/Classification.antt =====
-- classificationExceedsMax of ai-agent-orch/internal/policyengine/classification.go.
pub mod Levels
use ai_governance_orchestrat.Prelude.Text.{codes, same_text, to_lower, trim_space}
use ai_governance_orchestrat.Prelude.{
  ℕ, String, Bool, Option, none, some, List, [], ◌∷◌, ltb, if◌then◌else◌,
}

pub data Unknown : Type 0 where
  unknown_classification : List ℕ → Unknown
  unknown_max : List ℕ → Unknown

pub data Result (A : Type 0) : Type 0 where
  ok : A → Result A
  err : Unknown → Result A

-- The table classificationRank.
classification_rank : List ℕ → Option ℕ
unfolding same_text
classification_rank name =
    if same_text name (codes "public")
    then some 0
    else if same_text name (codes "internal")
    then some 1
    else if same_text name (codes "confidential")
    then some 2
    else if same_text name (codes "restricted")
    then some 3
    else none

or_internal : List ℕ → List ℕ
or_internal [] = codes "internal"
or_internal (c ∷ cs) = c ∷ cs

-- strings.ToLower(strings.TrimSpace(s)), with "internal" for nothing.
normalize : String → List ℕ
unfolding or_internal
normalize s = or_internal (to_lower (trim_space (codes s)))

compare_ranks : List ℕ → List ℕ → Option ℕ → Option ℕ → Result Bool
compare_ranks c m none max = err (unknown_classification c)
compare_ranks c m (some value) none = err (unknown_max m)
compare_ranks c m (some value) (some max) = ok (ltb max value)

unfoldable pub classification_exceeds_max : String → String → Result Bool
unfolding normalize classification_rank compare_ranks trim_space to_lower
classification_exceeds_max classification max =
    let c = normalize classification in
    let m = normalize max in compare_ranks c m (classification_rank c) (classification_rank m)
