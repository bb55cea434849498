-- ===== src/Session/Auth/Laws.antt =====
-- What the credentials of a request can get (governance/session_auth.go, httpauth/bearer.go).
use Prim.Native.String.{◌++◌ as str_append}
use ai_governance_orchestrat.Prelude.Strings.{
  lower_text, trim_text, strip_prefix, strip_prefix-append, strip_prefix-some,
}
use ai_governance_orchestrat.Prelude.Text.{codes}
use ai_governance_orchestrat.Prelude.{
  ℕ, ◌≤◌, List, [], ◌∷◌, All, refl, ◌∙◌, eq_refl, String, true, Option, none, some, ◌≡◌, ◌≢◌, ◌↔◌,
  ◌⊎◌, ap, subst, arith, ◌==◌, eq_iff, if◌then◌else◌, inl, inr, Bool-cases,
}
use ai_governance_orchestrat.Session.Auth.{
  TrustMetadata, client_trust, label_char, label_chars, bearer_matches, authorized_bearer,
  self_reported, trust_metadata_from_client, Credentials, AuthConfig, subject, refused, validated,
  presents, require_authorized_request, dev_subject, by_authorizer, valid_actor_label,
}

gateway-ne-self_reported :
    ◌≢◌ {A = TrustMetadata}
      (record { trust_level = "gateway_enforced"; enforcement_mode = "gateway" })
      self_reported
gateway-ne-self_reported e = absurd (cc)

managed-ne-self_reported :
    ◌≢◌ {A = TrustMetadata}
      (record { trust_level = "managed_client"; enforcement_mode = "managed" })
      self_reported
managed-ne-self_reported e = absurd (cc)

-- The names that a trusted client may have.
abbrev pub TrustedName : String → Type 0
TrustedName name =
    (name ≡ "ai-orch-mcp")
    ⊎ (name ≡ "ai-agent-bridge")
    ⊎ (name ≡ "vscode-bridge")
    ⊎ (name ≡ "ai-orch-bridge")

-- A request is recorded as more than self-reported exactly if it names, up to spaces around it and the
-- case of letters, one of the four trusted clients, and presents the trusted-client token, up to
-- spaces around it, where one is configured.
pub trust_metadata_from_client_iff :
    (trusted client presented : String)
    → (trust_metadata_from_client trusted client presented ≢ self_reported) ↔ (
        ((trusted ≡ "") ⊎ (trim_text presented ≡ trusted))
        × TrustedName (lower_text (trim_text client)))
unfolding trust_metadata_from_client client_trust
trust_metadata_from_client_iff trusted client presented =
    let name = lower_text (trim_text client) in
    ground (
      arith,
      eq_iff trusted "",
      eq_iff (trim_text presented) trusted,
      eq_iff name "ai-orch-mcp",
      eq_iff name "ai-agent-bridge",
      eq_iff name "vscode-bridge",
      eq_iff name "ai-orch-bridge",
      gateway-ne-self_reported,
      managed-ne-self_reported,
    )

presents-some :
    (header token : String) (o : Option String)
    → strip_prefix header "Bearer " ≡ o
    → presents o token ≡ true
    → header ≡ str_append "Bearer " token
presents-some header token none found e = absurd (cc)
presents-some header token (some p) found e =
    strip_prefix-some header "Bearer " p found ∙ ap (str_append "Bearer ") ((eq_iff p token).0 e)

-- A header is authorized by a token exactly if it is `Bearer ` with that token, which is not empty.
pub authorized_bearer_iff :
    (header token : String)
    → (authorized_bearer header token ≡ true)
      ↔ ((token ≢ "") × (header ≡ str_append "Bearer " token))
unfolding authorized_bearer bearer_matches
authorized_bearer_iff header token = (
  λ e. (
    ground (arith, eq_iff token ""),
    presents-some header token (strip_prefix header "Bearer ") refl (ground arith),
  ),
  λ (given, same).
      rw (same, strip_prefix-append "Bearer " token, eq_refl token)
        (ground (arith, eq_iff token "")),
)

-- A character of an actor label: an ASCII letter, a digit or one of `._@:-`.
abbrev pub LabelChar : ℕ → Type 0
LabelChar r =
    ((b'a' ≤ r) × (r ≤ b'z'))
    ⊎ ((b'A' ≤ r) × (r ≤ b'Z'))
    ⊎ ((b'0' ≤ r) × (r ≤ b'9'))
    ⊎ (r ≡ b'.')
    ⊎ (r ≡ b'_')
    ⊎ (r ≡ b'@')
    ⊎ (r ≡ b':')
    ⊎ (r ≡ b'-')

-- A label of at most 128 bytes.
abbrev pub IsLabel : String → Type 0
IsLabel name = (Prim.Native.String.len name ≤ 128) × All LabelChar (codes name)

label_char_iff : (r : ℕ) → (label_char r ≡ true) ↔ LabelChar r
unfolding label_char
label_char_iff r = ground arith

label_chars_iff : (rs : List ℕ) → (label_chars rs ≡ true) ↔ All LabelChar rs
unfolding label_chars
label_chars_iff [] = ground arith
label_chars_iff (r ∷ rs) =
    let (first, first') = label_char_iff r in
    let (later, later') = label_chars_iff rs in
    (λ e. (first (ground arith), later (ground arith)), λ (h, t). rw (first' h, later' t) refl)

valid_actor_label_iff : (s : String) → (valid_actor_label s ≡ true) ↔ ((s ≢ "") × IsLabel s)
unfolding valid_actor_label
valid_actor_label_iff s =
    let (each, each') = label_chars_iff (codes s) in
    (
      λ e. (ground (arith, eq_iff s ""), (ground arith, each (ground arith))),
      λ (given, (short, all)). rw (each' all) (ground (arith, eq_iff s "")),
    )

-- Whom the dev token lets in.
abbrev pub DevAdmits : AuthConfig → Credentials → String → Type 0
DevAdmits config request name =
    (config.dev_token ≢ "")
    × (request.authorization ≡ str_append "Bearer " config.dev_token)
    × (((request.local_identity ≡ "") × (name ≡ "local-dev"))
        ⊎ ((request.local_identity ≢ "")
            × (name ≡ request.local_identity)
            × IsLabel request.local_identity))

dev_subject_iff :
    (config : AuthConfig) (request : Credentials) (name : String)
    → (dev_subject config request ≡ subject name) ↔ DevAdmits config request name
unfolding dev_subject
dev_subject_iff config request name = ground (
  arith,
  authorized_bearer_iff request.authorization config.dev_token,
  valid_actor_label_iff request.local_identity,
  eq_iff config.dev_token "",
  eq_iff request.local_identity "",
)

-- Without an authorizer and an earlier identity, a request is let in exactly if a dev token is
-- configured and the header is `Bearer ` with it, as local-dev where it names no identity and
-- otherwise under that identity, which is then a label.
pub require_authorized_request-dev :
    (config : AuthConfig) (request : Credentials) (name : String)
    → config.validate ≡ none
    → request.context_subject ≡ ""
    → (require_authorized_request config request ≡ subject name) ↔ DevAdmits config request name
unfolding require_authorized_request by_authorizer
require_authorized_request-dev config request name plain unnamed =
    rw (unnamed, plain) (dev_subject_iff config request name)

-- A refusal is not answered as a creation.
dev_subject-refused_code :
    (config : AuthConfig) (request : Credentials) (why text : String) (code : ℕ)
    → dev_subject config request ≡ refused why code text
    → code ≢ 201
unfolding dev_subject
dev_subject-refused_code config request why text code e = ground arith

pub require_authorized_request-refused_code :
    (config : AuthConfig) (request : Credentials) (why text : String) (code : ℕ)
    → require_authorized_request config request ≡ refused why code text
    → code ≢ 201
unfolding require_authorized_request by_authorizer
require_authorized_request-refused_code config request why text code e =
    elim (Bool-cases (request.context_subject == "")) [
      | inl unnamed ↦ by_outcome config.validate (
          subst
            (λ b.
              (if b
                then by_authorizer config request config.validate
                else subject request.context_subject)
              ≡ refused why code text)
            unnamed e)
      | inr named ↦ absurd (
          subject-ne-refused (
            subst
              (λ b.
                (if b
                  then by_authorizer config request config.validate
                  else subject request.context_subject)
                ≡ refused why code text)
              named e))
    ]
  where
    subject-ne-refused : subject request.context_subject ≢ refused why code text
    subject-ne-refused h = cc

    by_validated : (o : Option String) → validated o ≡ refused why code text → code ≢ 201
    by_validated none h = ground arith
    by_validated (some name) h = absurd (cc)

    by_outcome :
        (o : Option (String → Option String))
        → by_authorizer config request o ≡ refused why code text
        → code ≢ 201
    by_outcome none h = dev_subject-refused_code config request why text code h
    by_outcome (some validate) h = by_validated (validate request.authorization) h
