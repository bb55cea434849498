-- ===== src/Composition/Handlers.antt =====
-- CompositionHandler of ai-agent-orch/internal/governance/composition_handlers.go over
-- CompositionStore: what a request that has passed routing, decoding and the method checks does.
-- `owner` is the actor of the session in the session store, `none` where it has none.
pub mod Panic
pub mod Ownership
use ai_governance_orchestrat.Prelude.Dict.{lookup, insert, remove}
use ai_governance_orchestrat.Prelude.{
  ℕ, zero, suc, ◌+◌, ◌≤◌, ◌<◌, String, Bool, true, false, not, Option, none, some, List, [], ◌∷◌,
  ◌≡◌, ◌≢◌, refl, sym, ap, ◌∙◌, ◌↔◌, ◌==◌, eq_iff, arith, length, get_elem?, if◌then◌else◌,
  Option-cases, inl, inr, ◌⊎◌, Bool-cases,
}
use ai_governance_orchestrat.Composition.{
  Stage, Composition, Error, Result, ok, err, human_gate_required, max_depth_exceeded,
  new_composition, approve_stage, complete_stage, advance, is_complete, validate_stages,
}

abbrev pub Store : Type 0
Store = List (String × Composition)

-- The answers: the status of the response with what it tells, or the panic of an index out of range.
pub data Response : Type 0 where
  created : Composition → Response
  shown : Composition → Bool → Response
  advanced : ℕ → Stage → Response
  stage_approved stage_completed : ℕ → Response
  bad_request : Error → Response
  locked forbidden_depth : Response
  conflict : Error → Response
  session_not_found ownership_mismatch composition_not_found : Response
  session_id_required stages_required : Response
  panic : Response

-- CompositionStore.Update: the call on the stored composition, kept if it succeeds.
settled : Store → String → Result Composition → Option (Result Composition) × Store
settled store session_id (err e) = (some (err e), store)
settled store session_id (ok c) = (some (ok c), insert session_id c store)

updated :
    Store
    → String
    → (Composition → Result Composition)
    → Option Composition
    → Option (Result Composition) × Store
unfolding settled
updated store session_id mutate none = (none, store)
updated store session_id mutate (some c) = settled store session_id (mutate c)

update : Store → String → (Composition → Result Composition) → Option (Result Composition) × Store
unfolding updated
update store session_id mutate = updated store session_id mutate (lookup session_id store)

-- Exists and Delete of CompositionStore.
unfoldable pub exists_composition : Store → String → Bool
exists_composition store session_id = elim (lookup session_id store) [
  | none ↦ false
  | some c ↦ true
]

unfoldable pub delete_composition : Store → String → Store
delete_composition store session_id = remove session_id store

-- requireSessionOwner: `none` lets the request pass.
unfoldable pub require_session_owner : Option String → String → Option Response
require_session_owner none actor = some session_not_found
require_session_owner (some owner) actor = if owner == actor then none else some ownership_mismatch

guarded : Store → Option Response → Response × Store → Response × Store
guarded store (some refusal) answer = (refusal, store)
guarded store none answer = answer

checked : Store → Option Error → Response × Store → Response × Store
checked store (some e) answer = (bad_request e, store)
checked store none answer = answer

unfoldable pub create_composition :
    Store → Option String → String → String → String → List Stage → Response × Store
unfolding guarded checked require_session_owner validate_stages
create_composition store owner actor session_id description [] =
    if session_id == "" then (session_id_required, store) else (stages_required, store)
create_composition store owner actor session_id description (stage ∷ stages) =
    let comp = record (new_composition session_id (stage ∷ stages)) { description = description } in
    if session_id == ""
    then (session_id_required, store)
    else checked store (validate_stages (stage ∷ stages) 2) (
        guarded store (require_session_owner owner actor)
          (created comp, insert session_id comp store))

shown_answer : Option Composition → Response
shown_answer none = composition_not_found
shown_answer (some c) = shown c (is_complete c)

unfoldable pub get_composition : Store → Option String → String → String → Response × Store
unfolding guarded require_session_owner shown_answer
get_composition store owner actor session_id =
    guarded store (require_session_owner owner actor)
      (shown_answer (lookup session_id store), store)

-- comp.Stages[comp.CurrentIdx] of the success response.
stage_response : Composition → Option Stage → Response
stage_response c none = panic
stage_response c (some stage) = advanced c.current_idx stage

advance_status : Error → Response
advance_status human_gate_required = locked
advance_status max_depth_exceeded = forbidden_depth
advance_status e = conflict e

advance_answer : Option (Result Composition) × Store → Response × Store
unfolding stage_response advance_status
advance_answer (none, store) = (composition_not_found, store)
advance_answer (some (err e), store) = (advance_status e, store)
advance_answer (some (ok c), store) = (stage_response c (get_elem? c.stages c.current_idx), store)

unfoldable pub advance_composition : Store → Option String → String → String → Response × Store
unfolding guarded require_session_owner update advance_answer
advance_composition store owner actor session_id =
    guarded store (require_session_owner owner actor)
      (advance_answer (update store session_id advance))

approve_answer : Option (Result Composition) × Store → Response × Store
approve_answer (none, store) = (composition_not_found, store)
approve_answer (some (err e), store) = (conflict e, store)
approve_answer (some (ok c), store) = (stage_approved c.current_idx, store)

unfoldable pub approve_stage_handler : Store → Option String → String → String → Response × Store
unfolding guarded require_session_owner update approve_answer
approve_stage_handler store owner actor session_id =
    guarded store (require_session_owner owner actor)
      (approve_answer (update store session_id approve_stage))

complete_answer : Option (Result Composition) × Store → Response × Store
complete_answer (none, store) = (composition_not_found, store)
complete_answer (some (err e), store) = (conflict e, store)
complete_answer (some (ok c), store) = (stage_completed c.current_idx, store)

unfoldable pub complete_stage_handler :
    Store → Option String → String → String → String → Response × Store
unfolding guarded require_session_owner update complete_answer
complete_stage_handler store owner actor session_id output =
    guarded store (require_session_owner owner actor)
      (complete_answer (update store session_id (λ c. complete_stage c output)))
