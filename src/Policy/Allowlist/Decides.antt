-- ===== src/Policy/Allowlist/Decides.antt =====
-- The rule of IsAllowedWithPermissions (policyengine/command_allowlist.go) without its loops.
use ai_governance_orchestrat.Prelude.Text.{codes, same_text, same_text_iff}
use ai_governance_orchestrat.Prelude.{
  ℕ, String, Bool, true, false, ◌&&◌, Option, none, some, List, [], ◌∷◌, ◌≡◌, ◌≢◌, refl, ◌⊎◌, inl,
  inr, ◌↔◌, ◌==◌, eq_iff, arith, All, Bool-cases,
}
use ai_governance_orchestrat.Policy.Engine.Spec.{In}
use ai_governance_orchestrat.Policy.Engine.Allowed.{
  string_slice_contains-In, In-string_slice_contains,
}
use ai_governance_orchestrat.Policy.Allowlist.{
  Subcommand, SystemCommand, requirement_satisfied, is_blank, subcommand_allows, deny_rule,
  allowed_in, validate_with_permissions,
}

-- The first element that satisfies `P` satisfies `Q`; there is one.
abbrev pub First {ℓ} : {A : Type ℓ} → (A → Type 0) → (A → Type 0) → List A → Type 0
First P Q [] = ⊥
First P Q (x ∷ xs) = (P x × Q x) ⊎ ((¬ P x) × First P Q xs)

-- The subcommand has a rule, and the first one lists the agent; or it has none, no subcommand was
-- given, and the agent's permissions meet the command's requirement.
abbrev pub SubcommandGrants : SystemCommand → List ℕ → String → List (String × String) → Type 0
SubcommandGrants cmd subcommand agent permissions =
    First (λ sub. codes sub.name ≡ subcommand) (λ sub. In agent sub.allowed_agents) cmd.subcommands
    ⊎ (All (λ sub. codes sub.name ≢ subcommand) cmd.subcommands
        × (subcommand ≡ [])
        × (requirement_satisfied cmd.requires permissions ≡ true))

-- A rule for the command, with a default that the loop knows.
abbrev pub IsDecisive : List ℕ → SystemCommand → Type 0
IsDecisive command cmd =
    (codes cmd.name ≡ command) × ((cmd.default ≡ "deny") ⊎ (cmd.default ≡ "allow"))

abbrev pub Grants : List ℕ → String → List (String × String) → SystemCommand → Type 0
Grants subcommand agent permissions cmd =
    (cmd.default ≡ "allow")
    ⊎ ((cmd.default ≡ "deny") × SubcommandGrants cmd subcommand agent permissions)

allow_ne_deny : ◌≢◌ {A = String} "allow" "deny"
allow_ne_deny = ground (arith, eq_iff "allow" "deny")

blank_iff : (s : List ℕ) → (is_blank s ≡ true) ↔ (s ≡ [])
unfolding is_blank
blank_iff [] = ground arith
blank_iff (c ∷ cs) = ground arith

module _ (subcommand : List ℕ) (agent : String) (satisfied : Bool) where
  abbrev Fits : Subcommand → Type 0
  Fits sub = codes sub.name ≡ subcommand

  abbrev Lists : Subcommand → Type 0
  Lists sub = In agent sub.allowed_agents

  abbrev Outcome : List Subcommand → Type 0
  Outcome subs =
      First Fits Lists subs
      ⊎ (All (λ sub. codes sub.name ≢ subcommand) subs × (subcommand ≡ []) × (satisfied ≡ true))

  differs :
      (sub : Subcommand)
      → same_text (codes sub.name) subcommand ≡ false
      → codes sub.name ≢ subcommand
  differs sub d e = cc ((same_text_iff (codes sub.name) subcommand).1 e)

  prepend_other :
      (sub : Subcommand) (subs : List Subcommand)
      → codes sub.name ≢ subcommand
      → Outcome subs
      → Outcome (sub ∷ subs)
  prepend_other sub subs d (inl f) = inl (inr (d, f))
  prepend_other sub subs d (inr (no_rule, e, s)) = inr ((d, no_rule), e, s)

  subcommand_allows-Outcome :
      (subs : List Subcommand)
      → subcommand_allows subs subcommand agent (is_blank subcommand && satisfied) ≡ true
      → Outcome subs
  unfolding subcommand_allows
  subcommand_allows-Outcome [] h = inr (tt, (blank_iff subcommand).0 (ground arith), ground arith)
  subcommand_allows-Outcome (sub ∷ subs) h =
      elim (Bool-cases (same_text (codes sub.name) subcommand)) [
        | inl same ↦
            inl (inl ((same_text_iff _ _).0 same, string_slice_contains-In _ _ (rw same at h)))
        | inr d ↦
            prepend_other sub subs (differs sub d) (subcommand_allows-Outcome subs (rw d at h))
      ]

  Outcome-subcommand_allows :
      (subs : List Subcommand)
      → Outcome subs
      → subcommand_allows subs subcommand agent (is_blank subcommand && satisfied) ≡ true
  unfolding subcommand_allows
  Outcome-subcommand_allows [] (inl f) = elim f [ ]
  Outcome-subcommand_allows [] (inr (no_rule, e, s)) = ground (arith, (blank_iff subcommand).1 e)
  Outcome-subcommand_allows (sub ∷ subs) (inl (inl (e, m))) = ground (
    arith,
    (same_text_iff (codes sub.name) subcommand).1 e,
    In-string_slice_contains sub.allowed_agents agent m,
  )
  Outcome-subcommand_allows (sub ∷ subs) (inl (inr (d, f))) =
      ground
        (arith, same_text_iff (codes sub.name) subcommand, Outcome-subcommand_allows subs (inl f))
  Outcome-subcommand_allows (sub ∷ subs) (inr ((d, no_rule), e, s)) = ground (
    arith,
    same_text_iff (codes sub.name) subcommand,
    Outcome-subcommand_allows subs (inr (no_rule, e, s)),
  )

module _ (command subcommand : List ℕ) (agent : String) (permissions : List (String × String)) where
  abbrev Granted : List SystemCommand → Type 0
  Granted = First (IsDecisive command) (Grants subcommand agent permissions)

  deny_rule_iff :
      (cmd : SystemCommand)
      → (deny_rule cmd subcommand agent permissions ≡ true)
        ↔ SubcommandGrants cmd subcommand agent permissions
  unfolding deny_rule
  deny_rule_iff cmd = (
    subcommand_allows-Outcome subcommand agent (requirement_satisfied cmd.requires permissions)
        cmd.subcommands,
    Outcome-subcommand_allows subcommand agent (requirement_satisfied cmd.requires permissions)
        cmd.subcommands,
  )

  allowed_in-Granted :
      (commands : List SystemCommand)
      → allowed_in commands command subcommand agent permissions ≡ true
      → Granted commands
  unfolding allowed_in
  allowed_in-Granted [] h = cc
  allowed_in-Granted (cmd ∷ commands) h = elim (Bool-cases (same_text (codes cmd.name) command)) [
    | inl same ↦ elim (Bool-cases (cmd.default == "deny")) [
      | inl deny ↦
          let d = (eq_iff cmd.default "deny").0 deny in
          inl (((same_text_iff _ _).0 same, inl d), inr (d, (deny_rule_iff cmd).0 (ground arith)))
      | inr not_deny ↦ elim (Bool-cases (cmd.default == "allow")) [
        | inl allow ↦
            let a = (eq_iff cmd.default "allow").0 allow in
            inl (((same_text_iff _ _).0 same, inr a), inl a)
        | inr not_allow ↦ inr (
          λ (e, d). ground (arith, eq_iff cmd.default "deny", eq_iff cmd.default "allow"),
          allowed_in-Granted commands (ground arith),
        )
      ]
    ]
    | inr other ↦ inr (
      λ (e, d). cc ((same_text_iff (codes cmd.name) command).1 e),
      allowed_in-Granted commands (ground arith),
    )
  ]

  Granted-allowed_in :
      (commands : List SystemCommand)
      → Granted commands
      → allowed_in commands command subcommand agent permissions ≡ true
  unfolding allowed_in
  Granted-allowed_in [] g = elim g [ ]
  Granted-allowed_in (cmd ∷ commands) (inl ((e, d), inl allow)) = ground (
    arith,
    (same_text_iff (codes cmd.name) command).1 e,
    eq_iff cmd.default "deny",
    eq_iff cmd.default "allow",
    allow_ne_deny,
  )
  Granted-allowed_in (cmd ∷ commands) (inl ((e, d), inr (deny, g))) = ground (
    arith,
    (same_text_iff (codes cmd.name) command).1 e,
    eq_iff cmd.default "deny",
    (deny_rule_iff cmd).1 g,
  )
  Granted-allowed_in (cmd ∷ commands) (inr (skip, g)) =
      elim (Bool-cases (same_text (codes cmd.name) command)) [
        | inl same ↦
            let e = (same_text_iff _ _).0 same in
            let not_deny : (cmd.default == "deny") ≡ false =
              ground
                (arith, eq_iff cmd.default "deny", λ (d : cmd.default ≡ "deny"). skip (e, inl d)) in
            let not_allow : (cmd.default == "allow") ≡ false =
              ground (
                arith,
                eq_iff cmd.default "allow",
                λ (d : cmd.default ≡ "allow"). skip (e, inr d),
              ) in
            rw (same, not_deny, not_allow) (Granted-allowed_in commands g)
        | inr other ↦ rw other (Granted-allowed_in commands g)
      ]

-- The broker passes a tool call exactly if a list is loaded whose first decisive rule for the
-- command, one with default "deny" or "allow", grants it: by default "allow", or by a subcommand
-- rule that lists the agent, or, with no rule and no subcommand, by a permission that the command
-- requires.
pub validate_with_permissions-eq-none_iff :
    (list : Option (List SystemCommand)) (command subcommand : List ℕ) (agent : String)
    (permissions : List (String × String))
    → (validate_with_permissions list command subcommand agent permissions ≡ none) ↔ (
        (commands : List SystemCommand) × (list ≡ some commands)
        × First (IsDecisive command) (Grants subcommand agent permissions) commands)
unfolding validate_with_permissions
validate_with_permissions-eq-none_iff none command subcommand agent permissions =
    (λ e. cc, λ (c, e, g). cc)
validate_with_permissions-eq-none_iff (some list) command subcommand agent permissions = (
  λ e. (list, refl, allowed_in-Granted command subcommand agent permissions list (ground arith)),
  λ (c, e, g). let a = Granted-allowed_in command subcommand agent permissions c g in ground arith,
)
