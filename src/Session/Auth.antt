-- ===== src/Session/Auth.antt =====
-- Who makes a request and how far its labels are trusted: session_auth.go of
-- ai-agent-orch/internal/governance and AuthorizedBearer of ai-agent-orch/internal/httpauth/bearer.go.
-- `subtle.ConstantTimeCompare` is equality here.
pub mod Laws
use ai_governance_orchestrat.Prelude.Strings.{lower_text, trim_text, strip_prefix}
use ai_governance_orchestrat.Prelude.Text.{codes}
use ai_governance_orchestrat.Prelude.{
  ℕ, String, Bool, true, false, not, ◌&&◌, ◌||◌, Option, none, some, List, [], ◌∷◌, ◌==◌, leb, ltb,
  nat_eq, if◌then◌else◌,
}

abbrev pub admin_operator_subject : String
admin_operator_subject = "admin-operator"

abbrev pub presents : Option String → String → Bool
presents none token = false
presents (some presented) token = presented == token

-- The token after `Bearer `, compared with the configured one.
unfoldable pub bearer_matches : String → String → Bool
unfolding strip_prefix
bearer_matches header token = presents (strip_prefix header "Bearer ") token

unfoldable pub authorized_bearer : String → String → Bool
unfolding bearer_matches
authorized_bearer header token = if token == "" then false else bearer_matches header token

unfoldable pub admin_bearer_subject : String → String → Option String
unfolding bearer_matches
admin_bearer_subject admin_token header =
    if admin_token == ""
    then none
    else if bearer_matches header admin_token
    then some admin_operator_subject
    else none

pub record TrustMetadata : Type 0 where
  pub trust_level : String
  pub enforcement_mode : String

abbrev pub self_reported : TrustMetadata
self_reported = record { trust_level = "self_reported"; enforcement_mode = "advisory" }

-- What a client's name is worth.
unfoldable pub client_trust : String → TrustMetadata
client_trust client =
    if client == "ai-orch-mcp"
    then record { trust_level = "gateway_enforced"; enforcement_mode = "gateway" }
    else if client == "ai-agent-bridge" || client == "vscode-bridge" || client == "ai-orch-bridge"
    then record { trust_level = "managed_client"; enforcement_mode = "managed" }
    else self_reported

-- The configured token, the client's header and the token that it presents.
unfoldable pub trust_metadata_from_client : String → String → String → TrustMetadata
unfolding client_trust trim_text lower_text
trust_metadata_from_client trusted client presented =
    if not (trusted == "") && not (trim_text presented == trusted)
    then self_reported
    else client_trust (lower_text (trim_text client))

-- One character of an actor label.
unfoldable pub label_char : ℕ → Bool
label_char r =
    leb b'a' r && leb r b'z'
    || leb b'A' r && leb r b'Z'
    || leb b'0' r && leb r b'9'
    || nat_eq r b'.'
    || nat_eq r b'_'
    || nat_eq r b'@'
    || nat_eq r b':'
    || nat_eq r b'-'

unfoldable label_chars : List ℕ → Bool
unfolding label_char
label_chars [] = true
label_chars (r ∷ rs) = label_char r && label_chars rs

-- `len` of a Go string counts bytes, as `Prim.Native.String.len` does.
unfoldable pub valid_actor_label : String → Bool
unfolding label_chars
valid_actor_label value =
    if value == "" || ltb 128 (Prim.Native.String.len value)
    then false
    else label_chars (codes value)

-- What RequireAuthorizedRequest reads of the service and of the request. `validate` is the
-- configured authorizer, a library's OIDC verification; `context_subject` is what an earlier
-- middleware has found, the empty text for nothing.
pub record Credentials : Type 0 where
  pub context_subject : String
  pub authorization : String
  pub local_identity : String
  pub client : String
  pub client_token : String

pub record AuthConfig : Type 0 where
  pub validate : Option (String → Option String)
  pub dev_token : String
  pub admin_token : String
  pub trusted_client_token : String

-- The subject, or the refusal: the reason that the audit event gives, the status and the error.
pub data AuthOutcome : Type 0 where
  subject : String → AuthOutcome
  refused : String → ℕ → String → AuthOutcome

abbrev validated : Option String → AuthOutcome
validated (some name) = subject name
validated none = refused "invalid bearer token" 401 "unauthorized"

-- The dev token and the identity header.
unfoldable dev_subject : AuthConfig → Credentials → AuthOutcome
unfolding authorized_bearer valid_actor_label
dev_subject config request =
    if config.dev_token == ""
    then refused "dev token not configured" 503 "dev token not configured"
    else if not (authorized_bearer request.authorization config.dev_token)
    then refused "invalid dev token" 401 "unauthorized"
    else if request.local_identity == ""
    then subject "local-dev"
    else if not (valid_actor_label request.local_identity)
    then refused "invalid local identity" 400 "invalid local identity"
    else subject request.local_identity

by_authorizer : AuthConfig → Credentials → Option (String → Option String) → AuthOutcome
unfolding dev_subject
by_authorizer config request none = dev_subject config request
by_authorizer config request (some validate) = validated (validate request.authorization)

-- RequireAuthorizedRequest up to the refusal's audit event, which the service appends.
unfoldable pub require_authorized_request : AuthConfig → Credentials → AuthOutcome
unfolding by_authorizer
require_authorized_request config request =
    if request.context_subject == ""
    then by_authorizer config request config.validate
    else subject request.context_subject

-- RequireAdminRequest: the status and the error of a refusal.
unfoldable pub require_admin_request : AuthConfig → String → Option (ℕ × String)
unfolding strip_prefix
require_admin_request config header =
    if config.admin_token == ""
    then some (403, "admin not configured")
    else elim (strip_prefix header "Bearer ") [
      | none ↦ some (401, "unauthorized")
      | some presented ↦
          if presented == config.admin_token then none else some (403, "admin access required")
    ]

-- actorFromContext, on the subject that the context holds.
unfoldable pub actor_from_context : String → String
actor_from_context name = if name == "" then "local-dev" else name
