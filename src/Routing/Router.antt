-- ===== src/Routing/Router.antt =====
-- The specialist router of ai-agent-orch/internal/orchestrator/router.go. `catalog.Validate`, which
-- reads the catalog from disk, is an argument: what it reports if it starts at a time, and how long
-- it takes. The classification that a decision carries along, and the fields of the context that
-- no rule reads, are left out; a call is one step, its lock held.
pub mod Selection
pub mod Cache
use Prim.Native.String.{◌++◌ as str_append}
use ai_governance_orchestrat.Prelude.Text.{codes, to_lower, same_text, split}
use ai_governance_orchestrat.Prelude.{
  ℕ, ◌-◌, ◌+◌, String, Bool, true, false, not, ◌&&◌, ◌||◌, Option, none, some, List, [], ◌∷◌, ◌==◌,
  ltb, if◌then◌else◌,
}
use ai_governance_orchestrat.Routing.Classifier.{contains_any}

-- catalog.Report: of an agent, its name.
pub record Report : Type 0 where
  pub agents : List String
  pub model_aliases : List String

unfoldable pub has_agent : List String → String → Bool
has_agent [] name = false
has_agent (agent ∷ agents) name =
    let rest = has_agent agents name in if agent == name then true else rest

pub record SessionContext : Type 0 where
  pub branch : String
  pub work_item_type : String

pub record RouteDecision : Type 0 where
  pub specialist : String
  pub reason : String

pub data RouteError : Type 0 where
  prompt_required : RouteError
  catalog_invalid : String → RouteError
  not_in_catalog : String → RouteError

pub data Outcome (A : Type 0) : Type 0 where
  done : A → Outcome A
  refused : RouteError → Outcome A

-- The table typeMap.
unfoldable pub type_map : List ℕ → Option String
type_map key =
    if same_text key (codes "frontend")
    then some "frontend-development"
    else if same_text key (codes "backend")
    then some "backend-development"
    else if same_text key (codes "bugfix")
    then some "code-review"
    else if same_text key (codes "docs")
    then some "documentation"
    else if same_text key (codes "refactor")
    then some "refactor"
    else if same_text key (codes "test")
    then some "unit-tests"
    else if same_text key (codes "security")
    then some "security-scan"
    else none

-- An agent of the table, if the catalog has it.
abbrev listed : Report → Option String → Option String
listed report none = none
listed report (some agent) = if has_agent report.agents agent then some agent else none

abbrev prefix_agent : Report → List (List ℕ) → Option String
prefix_agent report (first ∷ next ∷ parts) = listed report (type_map (to_lower first))
prefix_agent report parts = none

-- `none` is the empty name.
unfoldable pub agent_for_branch : String → String → Report → Option String
agent_for_branch branch work_item_type report =
    let by_prefix = prefix_agent report (split b'/' (codes branch)) in
    elim (listed report (type_map (codes work_item_type))) [
      | some agent ↦ some agent
      | none ↦ by_prefix
    ]

abbrev test_match : List ℕ → Bool
test_match text =
    contains_any text
      ("playwright" ∷ "unit test" ∷ "integration test" ∷ "regression" ∷ "coverage" ∷ [])
    || contains_any text ("test" ∷ "tests" ∷ [])
      && not (contains_any text ("contest" ∷ "latest" ∷ []))

unfoldable pub select_by_keywords : List ℕ → RouteDecision
select_by_keywords text =
    if contains_any text ("terraform" ∷ "tf module" ∷ " hcl" ∷ "infrastructure as code" ∷ [])
    then record { specialist = "terraform-review"; reason = "terraform keyword match" }
    else if contains_any text (
        "full security review" ∷ "security review of this codebase"
        ∷ "security review of the codebase" ∷ [])
    then record { specialist = "security-review"; reason = "security review keyword match" }
    else if test_match text
    then record { specialist = "unit-tests"; reason = "testing keyword match" }
    else if contains_any text
        ("react" ∷ "frontend" ∷ "typescript and css" ∷ "vue" ∷ "angular" ∷ "svelte" ∷ [])
    then record { specialist = "frontend-development"; reason = "frontend keyword match" }
    else if contains_any text (
        "go http" ∷ "http handler" ∷ "rest api endpoint" ∷ "golang" ∷ "backend service" ∷ "grpc"
        ∷ [])
    then record { specialist = "backend-development"; reason = "backend keyword match" }
    else if contains_any text (
        "secret" ∷ "auth" ∷ "authentication" ∷ "authorization" ∷ "vulnerability" ∷ "dependency risk"
        ∷ "data exposure" ∷ [])
    then record { specialist = "security-scan"; reason = "security keyword match" }
    else if contains_any text (
        "architecture" ∷ "service boundaries" ∷ "boundaries" ∷ "data flow" ∷ "design review"
        ∷ "deployment shape" ∷ "tradeoff" ∷ [])
    then record { specialist = "architecture-review"; reason = "architecture keyword match" }
    else if contains_any text
        ("readme" ∷ "documentation" ∷ "docs" ∷ "developer notes" ∷ "api explanation" ∷ [])
    then record { specialist = "documentation"; reason = "documentation keyword match" }
    else if contains_any text
        ("refactor" ∷ "cleanup" ∷ "clean up" ∷ "reorganize" ∷ "simplify" ∷ "rename" ∷ [])
    then record { specialist = "refactor"; reason = "refactor keyword match" }
    else if contains_any text
        ("review" ∷ "diff" ∷ "bugs" ∷ "risky" ∷ "pr review" ∷ "regression" ∷ [])
    then record { specialist = "code-review"; reason = "code review keyword match" }
    else record { specialist = "code-review"; reason = "default review specialist" }

-- The keyword fallback, whose choice must be in the catalog.
abbrev in_catalog : Report → RouteDecision → Outcome RouteDecision
in_catalog report choice =
    if not (has_agent report.agents choice.specialist)
    then refused (not_in_catalog choice.specialist)
    else done choice

abbrev by_branch : Option String → SessionContext → Outcome RouteDecision → Outcome RouteDecision
by_branch none ctx fallback = fallback
by_branch (some agent) ctx fallback =
    done (record { specialist = agent; reason = str_append "branch_prefix:" ctx.work_item_type })

-- SelectSpecialist on a catalog report, for a prompt that is not empty.
select_in : Report → String → SessionContext → Outcome RouteDecision
select_in report prompt ctx =
    let fallback = in_catalog report (select_by_keywords (to_lower (codes prompt))) in
    if ctx.branch == ""
    then fallback
    else by_branch (agent_for_branch ctx.branch ctx.work_item_type report) ctx fallback

-- cachedValidation: when the catalog was validated, and with what outcome.
pub record CachedValidation : Type 0 where
  pub outcome : Outcome Report
  pub validated_at : ℕ

abbrev pub hit_ttl : ℕ
hit_ttl = 30_000_000_000

abbrev pub err_ttl : ℕ
err_ttl = 5_000_000_000

abbrev pub ttl_of : Outcome Report → ℕ
ttl_of (done report) = hit_ttl
ttl_of (refused e) = err_ttl

abbrev refreshed : (ℕ → Outcome Report) → (ℕ → ℕ) → ℕ → Outcome Report × Option CachedValidation
refreshed validate took now =
    (validate now, some (record { outcome = validate now; validated_at = now + took now }))

-- cachedCatalog at the time `now`: the cache is used while it is younger than its bound.
unfoldable pub cached_catalog :
    (ℕ → Outcome Report)
    → (ℕ → ℕ)
    → ℕ
    → Option CachedValidation
    → Outcome Report × Option CachedValidation
cached_catalog validate took now none = refreshed validate took now
cached_catalog validate took now (some c) =
    if ltb (now - c.validated_at) (ttl_of c.outcome)
    then (c.outcome, some c)
    else refreshed validate took now

abbrev selected : Outcome Report → String → SessionContext → Outcome RouteDecision
unfolding select_in
selected (refused e) prompt ctx = refused e
selected (done report) prompt ctx = select_in report prompt ctx

unfoldable pub select_specialist :
    (ℕ → Outcome Report)
    → (ℕ → ℕ)
    → ℕ
    → Option CachedValidation
    → String
    → SessionContext
    → Outcome RouteDecision × Option CachedValidation
unfolding selected
select_specialist validate took now cache prompt ctx =
    let (outcome, kept) = cached_catalog validate took now cache in
    if prompt == "" then (refused prompt_required, cache) else (selected outcome prompt ctx, kept)
