-- ===== src/Session/Request/Checks.antt =====
-- What the checks of a request (governance/sessions.go, messages.go) let through.
use Prim.Native.String.{◌++◌ as str_append}
use ai_governance_orchestrat.Prelude.Strings.{
  lower_text, trim_text, strip_prefix-append, strip_suffix-append,
}
use ai_governance_orchestrat.Prelude.{
  ℕ, ◌≤◌, String, true, false, Option, none, ◌≡◌, ◌≢◌, ◌↔◌, ◌⊎◌, inl, inr, refl, ap, ◌∙◌, arith,
  ◌==◌, eq_iff, if◌then◌else◌, Option-cases, Bool-cases,
}
use ai_governance_orchestrat.Session.Record.{list_limit}
use ai_governance_orchestrat.Session.Request.{
  CreateSessionRequest, extract_session_id, before_suffix, or_nothing, parse_session_list_limit,
  valid_permission_mode, valid_approval_mode, normalize_runtime_modes, validate,
}

-- A session's id is read back from the path that its routes build around it.
pub extract_session_id-append :
    (prefix id suffix : String)
    → extract_session_id (str_append prefix (str_append id suffix)) prefix suffix ≡ id
unfolding extract_session_id
extract_session_id-append prefix id suffix =
    ap (before_suffix suffix) (strip_prefix-append prefix (str_append id suffix))
    ∙ ap or_nothing (strip_suffix-append id suffix)

-- A list of sessions is asked for with a limit from 1 to 100, whatever text the query has, and the
-- store applies it as it is.
pub parse_session_list_limit-bounds :
    (atoi : String → Option ℕ) (value : String)
    → (1 ≤ parse_session_list_limit atoi value)
      × (parse_session_list_limit atoi value ≤ 100)
      × (list_limit (parse_session_list_limit atoi value) ≡ parse_session_list_limit atoi value)
unfolding parse_session_list_limit list_limit
parse_session_list_limit-bounds atoi value = elim (Option-cases (atoi value)) [
  | inl bad ↦ rw bad (ground arith)
  | inr (limit, good) ↦ rw good (ground arith)
]

permission_default :
    (p : String)
    → (valid_permission_mode (if p == "" then "reviewed" else p) ≡ true)
      ↔ ((p ≡ "") ⊎ (valid_permission_mode p ≡ true))
unfolding valid_permission_mode
permission_default p = elim (Bool-cases (p == "")) [
  | inl absent ↦ rw absent ((λ _. inl ((eq_iff p "").0 absent)), λ _. refl)
  | inr given ↦ rw given (ground (arith, eq_iff p ""))
]

approval_default :
    (p mode : String)
    → (valid_approval_mode
          (if p == "" then (if mode == "full_access" then "yolo" else "manual") else p)
        ≡ true)
      ↔ ((p ≡ "") ⊎ (valid_approval_mode p ≡ true))
unfolding valid_approval_mode
approval_default p mode = elim (Bool-cases (p == "")) [
  | inl absent ↦ rw absent (
    (λ _. inl ((eq_iff p "").0 absent)),
    λ _.
        elim (mode == "full_access")
          as (λ b. valid_approval_mode (if b then "yolo" else "manual") ≡ true) [
            | true ↦ refl
            | false ↦ refl
          ],
  )
  | inr given ↦ rw given (ground (arith, eq_iff p ""))
]

abbrev pub PermissionMode : String → Type 0
PermissionMode mode =
    (mode ≡ "read_only") ⊎ (mode ≡ "reviewed") ⊎ (mode ≡ "auto_apply") ⊎ (mode ≡ "full_access")

abbrev pub ApprovalMode : String → Type 0
ApprovalMode mode =
    (mode ≡ "manual") ⊎ (mode ≡ "auto_approved") ⊎ (mode ≡ "yolo") ⊎ (mode ≡ "self_reported")

valid_permission_mode_iff :
    (mode : String) → (valid_permission_mode mode ≡ true) ↔ PermissionMode mode
unfolding valid_permission_mode
valid_permission_mode_iff mode = ground (
  arith,
  eq_iff mode "read_only",
  eq_iff mode "reviewed",
  eq_iff mode "auto_apply",
  eq_iff mode "full_access",
)

valid_approval_mode_iff : (mode : String) → (valid_approval_mode mode ≡ true) ↔ ApprovalMode mode
unfolding valid_approval_mode
valid_approval_mode_iff mode = ground (
  arith,
  eq_iff mode "manual",
  eq_iff mode "auto_approved",
  eq_iff mode "yolo",
  eq_iff mode "self_reported",
)

module _ {Usd : Type 0} where
  -- A request passes the checks exactly if it names an agent, a classification and a prompt, and its
  -- two modes, trimmed and in lower case, are each absent or one of their four.
  pub validate-normalized_iff :
      (r : CreateSessionRequest Usd)
      → (validate (normalize_runtime_modes r) ≡ none) ↔ (
          (r.agent ≢ "")
          × (r.classification ≢ "")
          × (r.prompt ≢ "")
          × ((lower_text (trim_text r.permission_mode) ≡ "")
              ⊎ PermissionMode (lower_text (trim_text r.permission_mode)))
          × ((lower_text (trim_text r.approval_mode) ≡ "")
              ⊎ ApprovalMode (lower_text (trim_text r.approval_mode))))
  unfolding validate normalize_runtime_modes
  validate-normalized_iff r =
      let mode = lower_text (trim_text r.permission_mode) in
      let permission = permission_default mode in
      let approval =
        approval_default (lower_text (trim_text r.approval_mode))
          (if mode == "" then "reviewed" else mode) in
      ground (
        arith,
        permission,
        approval,
        valid_permission_mode_iff mode,
        valid_approval_mode_iff (lower_text (trim_text r.approval_mode)),
        eq_iff r.agent "",
        eq_iff r.classification "",
        eq_iff r.prompt "",
      )
