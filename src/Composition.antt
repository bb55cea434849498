-- ===== src/Composition.antt =====
-- ai-agent-orch/internal/composition/composition.go: a sequence of stages with a human gate between
-- them. A composition is a value here: the store's locks make each call one step, and Clone keeps
-- the stored one apart from what callers hold. A nil receiver does not arise below the store, which
-- never holds one. A stage's metadata, which no code of the package reads, is left out.
pub mod Progress
pub mod Gate
pub mod Handlers
use ai_governance_orchestrat.Prelude.{
  ℕ, zero, suc, ◌+◌, String, Bool, true, false, not, Option, none, some, List, [], ◌∷◌, ◌==◌, leb,
  ltb, if◌then◌else◌, length, get_elem?, set,
}
use ai_governance_orchestrat.Prelude.Dict.{lookup, insert, remove}

pub record Stage : Type 0 where
  pub name : String
  pub agent : String
  pub model_alias : String
  pub description : String
  pub input : String
  pub output : String
  pub approved : Bool
  pub completed : Bool

pub record Composition : Type 0 where
  pub session_id : String
  pub stages : List Stage
  pub current_idx : ℕ
  pub max_depth : ℕ
  pub description : String

pub data Error : Type 0 where
  all_stages_completed stage_not_completed human_gate_required max_depth_exceeded : Error
  no_stage_to_approve no_stage_to_complete no_active_stage : Error
  no_stages : Error
  too_many_stages : ℕ → ℕ → Error
  agent_required name_required : ℕ → Error

unfoldable pub new_composition : String → List Stage → Composition
new_composition session_id stages = record {
  session_id = session_id;
  stages = stages;
  current_idx = 0;
  max_depth = 2;
  description = "";
}

-- The checks of CanProceed on the current stage, if there is one.
proceed_from : Composition → Option Stage → Option Error
proceed_from c none = some all_stages_completed
proceed_from c (some stage) =
    if not stage.completed
    then some stage_not_completed
    else if not stage.approved
    then some human_gate_required
    else if leb c.max_depth (c.current_idx + 1)
    then some max_depth_exceeded
    else none

-- `none` is the nil error.
unfoldable pub can_proceed : Composition → Option Error
unfolding proceed_from
can_proceed c = proceed_from c (get_elem? c.stages c.current_idx)

pub data Result (A : Type 0) : Type 0 where
  ok : A → Result A
  err : Error → Result A

abbrev set_current : Composition → Stage → Composition
set_current c stage = record c { stages = set c.stages c.current_idx stage }

approve_at : Composition → Option Stage → Result Composition
approve_at c none = err no_stage_to_approve
approve_at c (some stage) = ok (set_current c (record stage { approved = true }))

unfoldable pub approve_stage : Composition → Result Composition
unfolding approve_at
approve_stage c = approve_at c (get_elem? c.stages c.current_idx)

complete_at : Composition → String → Option Stage → Result Composition
complete_at c output none = err no_stage_to_complete
complete_at c output (some stage) =
    ok (set_current c (record stage { output = output; completed = true }))

unfoldable pub complete_stage : Composition → String → Result Composition
unfolding complete_at
complete_stage c output = complete_at c output (get_elem? c.stages c.current_idx)

-- The step to the next stage, which takes over the output of the last one, if both exist.
carry : Composition → Option Stage → Option Stage → Composition
carry c (some stage) (some next) = record c {
  current_idx = c.current_idx + 1;
  stages = set c.stages (c.current_idx + 1) (record next { input = stage.output });
}
carry c stage next = record c { current_idx = c.current_idx + 1 }

advance_unless : Composition → Option Error → Result Composition
unfolding carry
advance_unless c (some e) = err e
advance_unless c none =
    ok (carry c (get_elem? c.stages c.current_idx) (get_elem? c.stages (c.current_idx + 1)))

unfoldable pub advance : Composition → Result Composition
unfolding advance_unless
advance c = advance_unless c (can_proceed c)

unfoldable pub is_complete : Composition → Bool
is_complete c = leb (length c.stages) c.current_idx

unfoldable pub current_stage : Composition → Result Stage
current_stage c = elim (get_elem? c.stages c.current_idx) [
  | none ↦ err no_active_stage
  | some stage ↦ ok stage
]

-- The loop of ValidateStages over the stages from number `i` on.
check_stages : ℕ → List Stage → Option Error
check_stages i [] = none
check_stages i (stage ∷ stages) =
    let rest = check_stages (i + 1) stages in
    if stage.agent == ""
    then some (agent_required i)
    else if stage.name == ""
    then some (name_required i)
    else rest

unfoldable pub validate_stages : List Stage → ℕ → Option Error
unfolding check_stages
validate_stages [] max_depth = some no_stages
validate_stages (stage ∷ stages) max_depth =
    if ltb max_depth (length (stage ∷ stages))
    then some (too_many_stages (length (stage ∷ stages)) max_depth)
    else check_stages 0 (stage ∷ stages)
