-- ===== src/Tests/Routing.antt =====
-- Prompts through the classifier and the router.
use ai_governance_orchestrat.Prelude.Text.{codes, to_lower, contains, same_text, split}
use ai_governance_orchestrat.Prelude.{
  ℕ, Bool, true, Option, none, some, [], ◌∷◌, ◌≡◌, refl, ltb, if◌then◌else◌,
}
use ai_governance_orchestrat.Routing.Classifier.{Request, Suggestion, contains_any, classify}
use ai_governance_orchestrat.Routing.Classifier.Advice.{Noted, classify-Noted}
use ai_governance_orchestrat.Routing.Classifier.Keywords.{
  IsSecurityScan, shared_words, classify-IsSecurityScan,
}
use ai_governance_orchestrat.Routing.Router.{
  Report, Outcome, done, refused, catalog_invalid, has_agent, SessionContext, RouteDecision,
  cached_catalog, select_specialist, agent_for_branch, type_map,
}
use ai_governance_orchestrat.Routing.Router.Selection.{select_specialist-has_agent}
use ai_governance_orchestrat.Routing.Router.Cache.{cache_after, IsFresh, cache_after-IsFresh}

-- Confidence in percent.
abbrev more : ℕ → ℕ → Bool
more a b = ltb b a

abbrev secret_request : Request
secret_request = record {
  prompt = "Rotate the Secret";
  branch = "main";
  classification = "internal";
}

abbrev sure : Request → Option (Suggestion ℕ)
sure req =
    some (record {
      task_type = "general";
      agent_profile = "code-review";
      confidence = 90;
      reason = "";
    })

classify-Noted_example :
    Noted 2
      (classify more 50 80 none secret_request)
      (classify more 50 80 (some sure) secret_request)
classify-Noted_example = classify-Noted more 50 80 (some sure) secret_request

has_secret : contains_any (to_lower (codes secret_request.prompt)) shared_words ≡ true
unfolding contains_any contains to_lower
has_secret = refl

classify-IsSecurityScan_example : IsSecurityScan (classify more 50 80 (some sure) secret_request)
classify-IsSecurityScan_example =
    classify-IsSecurityScan more 50 80 (some sure) secret_request has_secret

abbrev catalog : Report
catalog = record { agents = "code-review" ∷ "documentation" ∷ []; model_aliases = [] }

-- The catalog on the disk, which is broken in the first second.
abbrev disk : ℕ → Outcome Report
disk now = if ltb now 1_000_000_000 then refused (catalog_invalid "broken") else done catalog

abbrev instant : ℕ → ℕ
instant now = 0

abbrev docs_branch : SessionContext
docs_branch = record { branch = "docs/readme"; work_item_type = "" }

abbrev to_documentation : RouteDecision
to_documentation = record { specialist = "documentation"; reason = "branch_prefix:" }

by_prefix :
    (select_specialist disk instant 2_000_000_000 none "explain" docs_branch).0
    ≡ done to_documentation
unfolding select_specialist cached_catalog agent_for_branch type_map has_agent same_text split
    to_lower
by_prefix = refl

select_specialist-has_agent_example :
    (report : Report) × ((cached_catalog disk instant 2_000_000_000 none).0 ≡ done report)
    × (has_agent report.agents "documentation" ≡ true)
select_specialist-has_agent_example =
    select_specialist-has_agent disk instant 2_000_000_000 none "explain" docs_branch
      to_documentation by_prefix

-- The error of time 0 is still served at 4 s.
broken_for_a_while :
    (cached_catalog disk instant 4_000_000_000 (cache_after disk instant none (0 ∷ []))).0
    ≡ refused (catalog_invalid "broken")
unfolding cached_catalog cache_after
broken_for_a_while = refl

cache_after-IsFresh_example :
    IsFresh disk instant 4_000_000_000
      (cached_catalog disk instant 4_000_000_000 (cache_after disk instant none (0 ∷ []))).0
cache_after-IsFresh_example = cache_after-IsFresh disk instant (0 ∷ []) 4_000_000_000
