-- ===== src/Session/Service/Local.antt =====
-- The process-local state of a SessionService: session_local_state.go of
-- ai-agent-orch/internal/governance, with the lazy eviction of what is older than localStateTTL.
-- The time-to-live is a number of nanoseconds, 0 for none or less.
pub mod Cancels
use ai_governance_orchestrat.Prelude.Dict.{lookup, insert, remove}
use ai_governance_orchestrat.Prelude.{
  ℕ, ◌+◌, String, Bool, true, false, ◌||◌, Option, none, some, List, [], ◌∷◌, ◌==◌, leb, ltb,
  if◌then◌else◌,
}
use ai_governance_orchestrat.Session.Patch.{is_old}
use ai_governance_orchestrat.Session.Service.{Service}
use ai_governance_orchestrat.Stream.{or_nil}

unfoldable pub remember_event_id : String → String → Service → Service
remember_event_id id event_id s =
    if id == "" || event_id == ""
    then s
    else record s { last_event_id = insert id event_id s.last_event_id }

abbrev pub or_empty : Option String → String
or_empty none = ""
or_empty (some text) = text

unfoldable pub parent_event_id : String → Service → String
parent_event_id id s = or_empty (lookup id s.last_event_id)

-- The entries that an eviction keeps.
unfoldable pub fresh : {A : Type 0} → ℕ → ℕ → List (String × (A × ℕ)) → List (String × (A × ℕ))
fresh ttl now [] = []
fresh ttl now ((id, (value, t)) ∷ entries) =
    let later = fresh ttl now entries in
    if leb ttl 0
    then (id, (value, t)) ∷ entries
    else if is_old ttl now t
    then later
    else (id, (value, t)) ∷ later

unfoldable pub remember_prompt : ℕ → String → String → Service → Service
remember_prompt now id prompt s =
    if id == "" || prompt == "" then s else record s { prompts = insert id (prompt, now) s.prompts }

abbrev pub first_of : Option (String × ℕ) → Option String
first_of none = none
first_of (some (prompt, t)) = some prompt

-- What promptForSession returns; the entries that it evicts are found by no later call either, and
-- are left here.
unfoldable pub prompt_for_session : ℕ → ℕ → String → Service → Option String
unfolding fresh
prompt_for_session ttl now id s =
    if id == "" then none else first_of (lookup id (fresh ttl now s.prompts))

unfoldable pub forget_prompt : String → Service → Service
forget_prompt id s = record s { prompts = remove id s.prompts }

-- registerCancel, of the execution with the number `run`.
unfoldable pub register_cancel : ℕ → String → ℕ → Service → Service
register_cancel now id run s =
    if id == "" then s else record s { cancels = insert id (run, now) s.cancels }

abbrev pub cancel_found : String → Service → List (String × (ℕ × ℕ)) → Option (ℕ × ℕ) → Service
cancel_found id s cancels none = record s { cancels = cancels }
cancel_found id s cancels (some (run, t)) = record s {
  cancels = remove id cancels;
  cancelled = run ∷ s.cancelled;
}

-- cancelExecution, the eviction first.
unfoldable pub cancel_execution : ℕ → ℕ → String → Service → Service
unfolding fresh
cancel_execution ttl now id s =
    let cancels = fresh ttl now s.cancels in
    if id == "" then s else cancel_found id s cancels (lookup id cancels)

unfoldable pub remember_patch : ℕ → String → String → Service → Service
remember_patch now id patch_id s = if id == "" || patch_id == "" then s else record s {
  patches = insert id (insert patch_id now (or_nil (lookup id s.patches))) s.patches;
}

unfoldable pub fresh_patches : ℕ → ℕ → List (String × ℕ) → List (String × ℕ)
fresh_patches ttl now [] = []
fresh_patches ttl now ((patch_id, t) ∷ entries) =
    let later = fresh_patches ttl now entries in
    if leb ttl 0
    then (patch_id, t) ∷ entries
    else if is_old ttl now t
    then later
    else (patch_id, t) ∷ later

abbrev pub is_some {ℓ} : {A : Type ℓ} → Option A → Bool
is_some none = false
is_some (some a) = true

-- What patchKnown returns, with the eviction of the session's own patches.
unfoldable pub patch_known : ℕ → ℕ → String → String → Service → Bool
unfolding fresh_patches
patch_known ttl now id patch_id s =
    if id == "" || patch_id == ""
    then false
    else is_some (lookup patch_id (fresh_patches ttl now (or_nil (lookup id s.patches))))
