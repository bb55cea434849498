-- ===== src/Routing/Router/Selection.antt =====
-- The choices of SelectSpecialist (orchestrator/router.go) and the catalog.
use ai_governance_orchestrat.Prelude.Text.{codes, to_lower, split}
use ai_governance_orchestrat.Prelude.{
  ℕ, String, true, Option, none, some, List, ◌≡◌, refl, arith, ◌==◌, Bool-cases, inl, inr, subst,
  [], ◌∷◌,
}
use ai_governance_orchestrat.Routing.Router.{
  Report, has_agent, SessionContext, RouteDecision, Outcome, CachedValidation, done, refused,
  type_map, listed, prefix_agent, agent_for_branch, select_by_keywords, in_catalog, by_branch,
  select_in, cached_catalog, selected, select_specialist,
}

-- An outcome is an error, or names an agent of the report.
abbrev pub Listed : Report → Outcome RouteDecision → Type 0
Listed report (refused e) = Unit
Listed report (done d) = has_agent report.agents d.specialist ≡ true

listed-has_agent :
    (report : Report) (o : Option String) (agent : String)
    → listed report o ≡ some agent
    → has_agent report.agents agent ≡ true
listed-has_agent report none agent e = absurd (cc)
listed-has_agent report (some x) agent e = elim (Bool-cases (has_agent report.agents x)) [
  | inl h ↦ ground arith
  | inr h ↦ absurd (ground arith)
]

prefix_agent-has_agent :
    (report : Report) (parts : List (List ℕ)) (agent : String)
    → prefix_agent report parts ≡ some agent
    → has_agent report.agents agent ≡ true
prefix_agent-has_agent report [] agent e = absurd (cc)
prefix_agent-has_agent report (first ∷ []) agent e = absurd (cc)
prefix_agent-has_agent report (first ∷ next ∷ parts) agent e =
    listed-has_agent report (type_map (to_lower first)) agent e

either-has_agent :
    (report : Report) (o p : Option String) (agent : String)
    → ((x : String) → o ≡ some x → has_agent report.agents x ≡ true)
    → ((x : String) → p ≡ some x → has_agent report.agents x ≡ true)
    → ◌≡◌ {A = Option String} (elim o [ some a ↦ some a | none ↦ p ]) (some agent)
    → has_agent report.agents agent ≡ true
either-has_agent report (some x) p agent ho hp e = ho agent e
either-has_agent report none p agent ho hp e = hp agent e

agent_for_branch-has_agent :
    (branch work_item_type : String) (report : Report) (agent : String)
    → agent_for_branch branch work_item_type report ≡ some agent
    → has_agent report.agents agent ≡ true
unfolding agent_for_branch
agent_for_branch-has_agent branch work_item_type report agent e =
    either-has_agent report (listed report (type_map (codes work_item_type)))
      (prefix_agent report (split b'/' (codes branch))) agent
      (listed-has_agent report (type_map (codes work_item_type)))
      (prefix_agent-has_agent report (split b'/' (codes branch))) e

in_catalog-Listed : (report : Report) (d : RouteDecision) → Listed report (in_catalog report d)
in_catalog-Listed report d = elim (Bool-cases (has_agent report.agents d.specialist)) [
  | inl h ↦ rw h h
  | inr h ↦ rw h tt
]

by_branch-Listed :
    (report : Report) (o : Option String) (ctx : SessionContext) (fallback : Outcome RouteDecision)
    → ((x : String) → o ≡ some x → has_agent report.agents x ≡ true)
    → Listed report fallback
    → Listed report (by_branch o ctx fallback)
by_branch-Listed report none ctx fallback h l = l
by_branch-Listed report (some agent) ctx fallback h l = h agent refl

select_in-Listed :
    (report : Report) (prompt : String) (ctx : SessionContext)
    → Listed report (select_in report prompt ctx)
unfolding select_in
select_in-Listed report prompt ctx =
    let fallback = in_catalog-Listed report (select_by_keywords (to_lower (codes prompt))) in
    elim (Bool-cases (ctx.branch == "")) [
      | inl e ↦ rw e fallback
      | inr e ↦ rw e (
          by_branch-Listed report (agent_for_branch ctx.branch ctx.work_item_type report) ctx _
            (agent_for_branch-has_agent ctx.branch ctx.work_item_type report) fallback)
    ]

-- The decision is for an agent of the report that the cache or the disk gave.
selected-Listed :
    (outcome : Outcome Report) (prompt : String) (ctx : SessionContext) (d : RouteDecision)
    → selected outcome prompt ctx ≡ done d
    → (report : Report) × (outcome ≡ done report) × (has_agent report.agents d.specialist ≡ true)
unfolding selected
selected-Listed (refused e) prompt ctx d h = absurd (cc)
selected-Listed (done report) prompt ctx d h =
    (report, refl, subst (Listed report) h (select_in-Listed report prompt ctx))

-- A specialist that the router selects is an agent of the catalog report that it had, whether its
-- choice came from the work item, the branch or the keywords.
pub select_specialist-has_agent :
    (validate : ℕ → Outcome Report) (took : ℕ → ℕ) (now : ℕ) (cache : Option CachedValidation)
    (prompt : String) (ctx : SessionContext) (d : RouteDecision)
    → (select_specialist validate took now cache prompt ctx).0 ≡ done d
    → (report : Report) × ((cached_catalog validate took now cache).0 ≡ done report)
      × (has_agent report.agents d.specialist ≡ true)
unfolding select_specialist
select_specialist-has_agent validate took now cache prompt ctx d h =
    elim (Bool-cases (prompt == "")) [
      | inl e ↦ absurd (cc)
      | inr e ↦
          selected-Listed (cached_catalog validate took now cache).0 prompt ctx d (ground arith)
    ]
