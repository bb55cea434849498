-- ===== src/Tests/Composition.antt =====
-- Compositions of one and two stages.
use ai_governance_orchestrat.Prelude.Dict.{lookup}
use ai_governance_orchestrat.Prelude.{
  ◌+◌, ◌≤◌, true, false, none, some, List, [], ◌∷◌, ◌≡◌, refl, ◌↔◌, arith, eq_iff, length,
}
use ai_governance_orchestrat.Composition.{
  Stage, Composition, new_composition, can_proceed, approve_stage, complete_stage, advance,
  is_complete,
}
use ai_governance_orchestrat.Composition.Progress.{
  Op, approve, complete, advance_op, step, run, run-two_stages_incomplete,
}
use ai_governance_orchestrat.Composition.Gate.{Gated, run-Gated}
use ai_governance_orchestrat.Composition.Handlers.{
  Response, panic, create_composition, advance_composition, get_composition, approve_stage_handler,
  complete_stage_handler, require_session_owner,
}
use ai_governance_orchestrat.Composition.Handlers.Ownership.{Owns, not_owner-unchanged}
use ai_governance_orchestrat.Composition.Handlers.Panic.{advance_composition-panic_iff}

abbrev plan : Stage
plan = record {
  name = "plan";
  agent = "planner";
  model_alias = "default";
  description = "";
  input = "";
  output = "";
  approved = false;
  completed = false;
}

abbrev two_stages : List Stage
two_stages = plan ∷ record plan { name = "build"; agent = "builder" } ∷ []

abbrev calls : List Op
calls = advance_op ∷ complete "the plan" ∷ approve ∷ advance_op ∷ []

reaches_second : (run (new_composition "s" two_stages) calls).current_idx ≡ 1
unfolding run step new_composition advance complete_stage approve_stage can_proceed
reaches_second = refl

run-Gated_example : Gated (run (new_composition "s" two_stages) calls)
run-Gated_example = run-Gated "s" two_stages calls

run-two_stages_incomplete_example :
    (is_complete (run (new_composition "s" two_stages) calls) ≡ false)
    × ((run (new_composition "s" two_stages) calls).current_idx ≤ 1)
run-two_stages_incomplete_example = run-two_stages_incomplete "s" two_stages calls (omega arith)

-- The only stage, ready to be left.
abbrev ready : Composition
ready = record {
  session_id = "s";
  stages = record plan { approved = true; completed = true } ∷ [];
  current_idx = 0;
  max_depth = 2;
  description = "";
}

advance_composition-panic_iff_example :
    ((advance_composition (("s", ready) ∷ []) (some "ann") "ann" "s").0 ≡ panic)
    ↔ ((can_proceed ready ≡ none) × (ready.current_idx + 1 ≡ length ready.stages))
advance_composition-panic_iff_example =
    advance_composition-panic_iff (("s", ready) ∷ []) "ann" "s" ready (unfold lookup in refl)

panics : (advance_composition (("s", ready) ∷ []) (some "ann") "ann" "s").0 ≡ panic
unfolding advance_composition lookup advance can_proceed
panics = refl

not_ann : ¬ (Owns (some "ann") "bob")
not_ann = ground (arith, eq_iff "ann" "bob")

not_owner-unchanged_example :
    ((create_composition (("s", ready) ∷ []) (some "ann") "bob" "s" "" two_stages).1
      ≡ ("s", ready) ∷ [])
    × ((r : Response) × (require_session_owner (some "ann") "bob" ≡ some r)
        × (advance_composition (("s", ready) ∷ []) (some "ann") "bob" "s" ≡ (r, ("s", ready) ∷ []))
        × (get_composition (("s", ready) ∷ []) (some "ann") "bob" "s" ≡ (r, ("s", ready) ∷ []))
        × (approve_stage_handler (("s", ready) ∷ []) (some "ann") "bob" "s"
            ≡ (r, ("s", ready) ∷ []))
        × (complete_stage_handler (("s", ready) ∷ []) (some "ann") "bob" "s" "x"
            ≡ (r, ("s", ready) ∷ [])))
not_owner-unchanged_example =
    not_owner-unchanged (("s", ready) ∷ []) (some "ann") "bob" "s" "" "x" two_stages not_ann
