-- ===== src/Session/Patch/Stored.antt =====
-- What a PatchBuffer holds (governance/patch_buffer.go).
use ai_governance_orchestrat.Policy.Secrets.{SecretPattern, detect_secrets}
use ai_governance_orchestrat.Prelude.{
  ℕ, String, Bool, true, false, none, some, List, [], ◌∷◌, ◌≡◌, ◌≢◌, refl, if◌then◌else◌, All,
}
use ai_governance_orchestrat.Session.Patch.{
  completed, get_patch, Codec, PatchFile, PatchEnvelope, PatchError, validate_patch_path, Sanitized,
  safe, failed, PatchBuffer,
}

-- A file that may be stored: its path is accepted, and its content shows no secret.
abbrev pub IsChecked : (SecretPattern → String → Bool) → PatchFile → Type 0
IsChecked matches file =
    (validate_patch_path file.path ≡ none) × (detect_secrets matches file.new_content ≡ [])

-- The stored file is the one that was sent, with the hash of its new content where that is not empty.
abbrev pub Hashed : Codec → PatchFile → PatchFile → Type 0
Hashed codec sent kept =
    (kept.path ≡ sent.path)
    × (kept.new_content ≡ sent.new_content)
    × (kept.original_content ≡ sent.original_content)
    × (kept.other_json ≡ sent.other_json)
    × (sent.new_content ≢ "" → kept.proposed_content_hash ≡ codec.content_hash sent.new_content)

abbrev pub AllHashed : Codec → List PatchFile → List PatchFile → Type 0
AllHashed codec [] [] = Unit
AllHashed codec [] (k ∷ ks) = ⊥
AllHashed codec (f ∷ fs) [] = ⊥
AllHashed codec (f ∷ fs) (k ∷ ks) = Hashed codec f k × AllHashed codec fs ks

-- A shown file has no content.
abbrev pub IsBlank : PatchFile → Type 0
IsBlank file = (file.new_content ≡ "") × (file.original_content ≡ "")

abbrev pub paths_of : List PatchFile → List String
paths_of [] = []
paths_of (file ∷ files) = file.path ∷ paths_of files

-- What a successful Store says of the patch, of the text for the stream and of the buffer. The
-- stored envelope is the one that was sent, completed with the session, a buffer id and the hashes.
abbrev pub Kept :
    Codec → (SecretPattern → String → Bool) → ℕ → String → String → String → PatchBuffer → Type 0
Kept codec matches now id payload shown buffer =
    (sent : PatchEnvelope) × (kept : PatchEnvelope) × (full : String) × (blanked : List PatchFile)
    × (codec.parse payload ≡ some sent)
    × (sent.patch_id ≢ "")
    × All (IsChecked matches) sent.files
    × (kept.session_id ≡ id)
    × (kept.patch_id ≡ sent.patch_id)
    × (sent.buffer_id ≢ "" → kept.buffer_id ≡ sent.buffer_id)
    × AllHashed codec sent.files kept.files
    × (codec.marshal kept ≡ some full)
    × ((ttl : ℕ) → get_patch false ttl now id sent.patch_id buffer ≡ some full)
    × (codec.marshal (record kept { files = blanked }) ≡ some shown)
    × (paths_of blanked ≡ paths_of kept.files)
    × All IsBlank blanked

module _ (codec : Codec) (matches : SecretPattern → String → Bool) (now : ℕ) (id payload : String)
    (buffer : PatchBuffer) where
  -- A result of Store that is as it should be.
  abbrev pub Sound : Sanitized × PatchBuffer → Type 0
  Sound r = (shown : String) → r.0 ≡ safe shown → Kept codec matches now id payload shown r.1

  guarded :
      (b : Bool) (problem : PatchError) (r : Sanitized × PatchBuffer)
      → (b ≡ false → Sound r)
      → Sound (if b then (failed problem, buffer) else r)
  guarded true problem r sound = λ shown e. absurd (cc)
  guarded false problem r sound = sound refl

  module _ (envelope : PatchEnvelope) (parsed : codec.parse payload ≡ some envelope)
      (named : id ≢ "") (patched : envelope.patch_id ≢ "") where
    finished : List PatchFile → PatchEnvelope
    finished files = record (completed codec id payload envelope) { files = files }
