-- ===== src/Session/Patch.antt =====
-- PatchBuffer and validatePatchPath of ai-agent-orch/internal/governance/patch_buffer.go. A patch's
-- text and its time stand in one map; encoding/json and the SHA-256 hashes are arguments, a `Codec`.
pub mod Paths
pub mod Stored
use Prim.Native.String.{◌++◌ as str_append}
use ai_governance_orchestrat.Policy.Secrets.{SecretPattern, detect_secrets}
use ai_governance_orchestrat.Prelude.Dict.{lookup, insert}
use ai_governance_orchestrat.Prelude.Text.{codes, has_prefix, same_text}
use ai_governance_orchestrat.Prelude.{
  ℕ, ◌+◌, String, Bool, true, false, not, ◌&&◌, ◌||◌, Option, none, some, List, [], ◌∷◌, ◌++◌, ◌==◌,
  leb, ltb, nat_eq, if◌then◌else◌,
}
use ai_governance_orchestrat.Stream.{or_nil}

-- `t.Before(cutoff)`, where the cutoff is the time-to-live before now.
abbrev pub is_old : ℕ → ℕ → ℕ → Bool
is_old ttl now t = ltb (t + ttl) now

pub record PatchFile : Type 0 where
  pub path : String
  pub new_content : String
  pub original_content : String
  pub proposed_content_hash : String
  pub other_json : String

pub record PatchEnvelope : Type 0 where
  pub patch_id : String
  pub session_id : String
  pub buffer_id : String
  pub files : List PatchFile
  pub other_json : String

pub record Codec : Type 0 where
  pub parse : String → Option PatchEnvelope
  pub marshal : PatchEnvelope → Option String
  pub content_hash : String → String
  pub buffer_hash : String → String

pub data PatchError : Type 0 where
  cancelled no_session unparsed no_patch_id session_mismatch no_files : PatchError
  no_path absolute_path unsafe_segment : PatchError
  secret_in_content : List String → PatchError
  unencoded : PatchError

unfoldable pub is_separator : ℕ → Bool
is_separator c = nat_eq c b'/' || nat_eq c b'\\'

unfoldable pub is_letter : ℕ → Bool
is_letter c = leb b'A' c && leb c b'Z' || leb b'a' c && leb c b'z'

-- filepath.IsAbs where `/` separates, or the regular expression windowsAbsPath.
unfoldable pub is_absolute : List ℕ → Bool
unfolding is_letter is_separator
is_absolute (c ∷ colon ∷ sep ∷ rest) =
    nat_eq c b'/' || is_letter c && nat_eq colon b':' && is_separator sep
is_absolute (c ∷ rest) = nat_eq c b'/'
is_absolute [] = false

unfoldable pub push : ℕ → List (List ℕ) → List (List ℕ)
push c [] = (c ∷ []) ∷ []
push c (part ∷ parts) = (c ∷ part) ∷ parts

-- The parts between separators, the empty ones too.
unfoldable pub parts : (ℕ → Bool) → List ℕ → List (List ℕ)
unfolding push
parts sep [] = [] ∷ []
parts sep (c ∷ cs) = let later = parts sep cs in if sep c then [] ∷ later else push c later

unfoldable pub nonempty : List (List ℕ) → List (List ℕ)
nonempty [] = []
nonempty ([] ∷ rest) = nonempty rest
nonempty ((c ∷ cs) ∷ rest) = (c ∷ cs) ∷ nonempty rest

-- strings.FieldsFunc
unfoldable pub fields : (ℕ → Bool) → List ℕ → List (List ℕ)
unfolding parts nonempty
fields sep path = nonempty (parts sep path)

abbrev pub dot : List ℕ
dot = b'.' ∷ []

abbrev pub dot_dot : List ℕ
dot_dot = b'.' ∷ b'.' ∷ []

unfoldable pub has_unsafe : List (List ℕ) → Bool
has_unsafe [] = false
has_unsafe (part ∷ parts) = (same_text part dot || same_text part dot_dot) || has_unsafe parts

unfoldable pub validate_patch_path : String → Option PatchError
unfolding fields is_separator has_unsafe
validate_patch_path path =
    if path == ""
    then some no_path
    else if is_absolute (codes path)
    then some absolute_path
    else if has_unsafe (fields is_separator (codes path))
    then some unsafe_segment
    else none

-- The patches of each session, by their id.
abbrev pub PatchBuffer : Type 0
PatchBuffer = List (String × List (String × (String × ℕ)))

abbrev pub is_nil {ℓ} : {A : Type ℓ} → List A → Bool
is_nil [] = true
is_nil (x ∷ xs) = false

abbrev pub with_hash : Codec → PatchFile → PatchFile
with_hash codec file =
    if file.new_content == ""
    then file
    else record file { proposed_content_hash = codec.content_hash file.new_content }

abbrev pub first_problem : Option PatchError → List String → Option PatchError
first_problem (some problem) findings = some problem
first_problem none [] = none
first_problem none (found ∷ findings) = some (secret_in_content (found ∷ findings))

unfoldable pub file_problem : (SecretPattern → String → Bool) → PatchFile → Option PatchError
unfolding validate_patch_path
file_problem matches file =
    first_problem (validate_patch_path file.path) (detect_secrets matches file.new_content)

pub data Checked : Type 0 where
  rejected : PatchError → Checked
  passed : List PatchFile → Checked

abbrev pub checked_on : Option PatchError → PatchFile → Checked → Checked
checked_on (some problem) file rest = rejected problem
checked_on none file (rejected problem) = rejected problem
checked_on none file (passed files) = passed (file ∷ files)

-- The loop over the files: each, with its hash, or the first error.
unfoldable pub check_files : Codec → (SecretPattern → String → Bool) → List PatchFile → Checked
unfolding file_problem
check_files codec matches [] = passed []
check_files codec matches (file ∷ files) =
    checked_on (file_problem matches file) (with_hash codec file) (check_files codec matches files)

-- What the stream may show of a file.
abbrev pub without_content : PatchFile → PatchFile
without_content file = record file { new_content = ""; original_content = "" }

abbrev pub each_without : List PatchFile → List PatchFile
each_without [] = []
each_without (file ∷ files) = without_content file ∷ each_without files

-- The text for the stream, or the error.
pub data Sanitized : Type 0 where
  safe : String → Sanitized
  failed : PatchError → Sanitized

abbrev pub put : ℕ → String → String → String → PatchBuffer → PatchBuffer
put now id patch_id full buffer =
    insert id (insert patch_id (full, now) (or_nil (lookup id buffer))) buffer

abbrev pub encoded :
    ℕ → String → String → Option String → Option String → PatchBuffer → Sanitized × PatchBuffer
encoded now id patch_id none shown buffer = (failed unencoded, buffer)
encoded now id patch_id (some full) none buffer = (failed unencoded, buffer)
encoded now id patch_id (some full) (some shown) buffer =
    (safe shown, put now id patch_id full buffer)

store_checked : Codec → ℕ → String → PatchEnvelope → Checked → PatchBuffer → Sanitized × PatchBuffer
store_checked codec now id envelope (rejected problem) buffer = (failed problem, buffer)
store_checked codec now id envelope (passed files) buffer =
    encoded now id envelope.patch_id (codec.marshal (record envelope { files = files }))
      (codec.marshal (record envelope { files = each_without files })) buffer

abbrev pub completed : Codec → String → String → PatchEnvelope → PatchEnvelope
completed codec id payload envelope =
    let hashed =
      codec.buffer_hash
        (str_append id (str_append "|" (str_append envelope.patch_id (str_append "|" payload)))) in
    record envelope {
      session_id = id;
      buffer_id = if envelope.buffer_id == "" then str_append "buf_" hashed else envelope.buffer_id;
    }

store_parsed :
    Codec
    → (SecretPattern → String → Bool)
    → ℕ
    → String
    → String
    → Option PatchEnvelope
    → PatchBuffer
    → Sanitized × PatchBuffer
unfolding store_checked check_files
store_parsed codec matches now id payload none buffer = (failed unparsed, buffer)
store_parsed codec matches now id payload (some envelope) buffer =
    if envelope.patch_id == ""
    then (failed no_patch_id, buffer)
    else if not (envelope.session_id == "") && not (envelope.session_id == id)
    then (failed session_mismatch, buffer)
    else if is_nil envelope.files
    then (failed no_files, buffer)
    else store_checked codec now id (completed codec id payload envelope)
        (check_files codec matches envelope.files) buffer

-- PatchBuffer.Store; `ended` says that the context has ended.
unfoldable pub store :
    Codec
    → (SecretPattern → String → Bool)
    → Bool
    → ℕ
    → String
    → String
    → PatchBuffer
    → Sanitized × PatchBuffer
unfolding store_parsed
store codec matches ended now id payload buffer =
    if ended
    then (failed cancelled, buffer)
    else if id == ""
    then (failed no_session, buffer)
    else store_parsed codec matches now id payload (codec.parse payload) buffer

unfoldable pub fresh_entries : ℕ → ℕ → List (String × (String × ℕ)) → List (String × (String × ℕ))
fresh_entries ttl now [] = []
fresh_entries ttl now ((patch_id, (full, t)) ∷ entries) =
    let later = fresh_entries ttl now entries in
    if leb ttl 0
    then (patch_id, (full, t)) ∷ entries
    else if is_old ttl now t
    then later
    else (patch_id, (full, t)) ∷ later

abbrev pub payload_of : Option (String × ℕ) → Option String
payload_of none = none
payload_of (some (full, t)) = some full

-- PatchBuffer.Get, with the eviction of the session's own entries; none for its errors.
unfoldable pub get_patch : Bool → ℕ → ℕ → String → String → PatchBuffer → Option String
unfolding fresh_entries
get_patch ended ttl now id patch_id buffer =
    if ended || (id == "" || patch_id == "")
    then none
    else payload_of (lookup patch_id (fresh_entries ttl now (or_nil (lookup id buffer))))
