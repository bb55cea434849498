-- ===== src/Composition/Progress.antt =====
-- Runs of calls on a composition (composition/composition.go), and its number of stages and index.
use ai_governance_orchestrat.Prelude.{
  ℕ, ◌+◌, ◌≤◌, String, false, Option, none, some, List, [], ◌∷◌, ◌≡◌, refl, ◌∙◌, arith, length,
  length-set, get_elem?, leb,
}
use ai_governance_orchestrat.Composition.{
  Stage, Composition, Error, Result, ok, err, new_composition, proceed_from, can_proceed,
  approve_at, approve_stage, complete_at, complete_stage, carry, advance_unless, advance,
  is_complete,
}

-- A call of the package on a composition; one that fails leaves it as it was.
pub data Op : Type 0 where
  approve advance_op : Op
  complete : String → Op

abbrev pub kept : Composition → Result Composition → Composition
kept c (err e) = c
kept c (ok c') = c'

unfoldable pub step : Composition → Op → Composition
step c approve = kept c (approve_stage c)
step c (complete output) = kept c (complete_stage c output)
step c advance_op = kept c (advance c)

unfoldable pub run : Composition → List Op → Composition
unfolding step
run c [] = c
run c (op ∷ ops) = run (step c op) ops

-- The stages keep their number, and the index never passes the last depth.
record Within (n : ℕ) (c : Composition) : Type 0 where
  count : length c.stages ≡ n
  depth : c.max_depth ≡ 2
  index : c.current_idx ≤ 1

approve_at-Within :
    (n : ℕ) (c : Composition) (o : Option Stage) → Within n c → Within n (kept c (approve_at c o))
unfolding approve_at
approve_at-Within n c none w = w
approve_at-Within n c (some stage) w = record {
  count = length-set c.stages c.current_idx _ ∙ w.count;
  depth = w.depth;
  index = w.index;
}

complete_at-Within :
    (n : ℕ) (c : Composition) (output : String) (o : Option Stage)
    → Within n c
    → Within n (kept c (complete_at c output o))
unfolding complete_at
complete_at-Within n c output none w = w
complete_at-Within n c output (some stage) w = record {
  count = length-set c.stages c.current_idx _ ∙ w.count;
  depth = w.depth;
  index = w.index;
}

-- Only the first stage can be left.
proceed_from-index :
    (c : Composition) (o : Option Stage)
    → c.max_depth ≡ 2
    → proceed_from c o ≡ none
    → c.current_idx ≡ 0
unfolding proceed_from
proceed_from-index c none d e = absurd (cc)
proceed_from-index c (some stage) d e = ground arith

carry-Within :
    (n : ℕ) (c : Composition) (o next : Option Stage)
    → Within n c
    → c.current_idx ≡ 0
    → Within n (carry c o next)
unfolding carry
carry-Within n c (some stage) (some next) w z = record {
  count = length-set c.stages (c.current_idx + 1) _ ∙ w.count;
  depth = w.depth;
  index = omega arith;
}
carry-Within n c (some stage) none w z = record {
  count = w.count;
  depth = w.depth;
  index = omega arith;
}
carry-Within n c none next w z = record { count = w.count; depth = w.depth; index = omega arith }

advance_unless-Within :
    (n : ℕ) (c : Composition) (o : Option Error)
    → (o ≡ none → c.current_idx ≡ 0)
    → Within n c
    → Within n (kept c (advance_unless c o))
unfolding advance_unless
advance_unless-Within n c (some e) z w = w
advance_unless-Within n c none z w =
    carry-Within n c (get_elem? c.stages c.current_idx) (get_elem? c.stages (c.current_idx + 1)) w
      (z refl)

step-Within : (n : ℕ) (c : Composition) (op : Op) → Within n c → Within n (step c op)
unfolding step approve_stage complete_stage advance can_proceed
step-Within n c approve w = approve_at-Within n c (get_elem? c.stages c.current_idx) w
step-Within n c (complete output) w =
    complete_at-Within n c output (get_elem? c.stages c.current_idx) w
step-Within n c advance_op w =
    advance_unless-Within n c (proceed_from c (get_elem? c.stages c.current_idx))
      (proceed_from-index c (get_elem? c.stages c.current_idx) w.depth) w

run-Within : (n : ℕ) (c : Composition) (ops : List Op) → Within n c → Within n (run c ops)
unfolding run
run-Within n c [] w = w
run-Within n c (op ∷ ops) w = run-Within n (step c op) ops (step-Within n c op w)

start-Within :
    (session_id : String) (stages : List Stage)
    → Within (length stages) (new_composition session_id stages)
unfolding new_composition
start-Within session_id stages = record { count = refl; depth = refl; index = omega arith }

-- A new composition of two or more stages never becomes complete, whatever calls are made on it:
-- the depth test of CanProceed keeps the index at 0 or 1.
pub run-two_stages_incomplete :
    (session_id : String) (stages : List Stage) (ops : List Op)
    → 2 ≤ length stages
    → (is_complete (run (new_composition session_id stages) ops) ≡ false)
      × ((run (new_composition session_id stages) ops).current_idx ≤ 1)
unfolding is_complete
run-two_stages_incomplete session_id stages ops many =
    let w =
      run-Within (length stages) (new_composition session_id stages) ops
        (start-Within session_id stages) in
    (
      incomplete _ (run (new_composition session_id stages) ops).current_idx w.count w.index,
      w.index,
    )
  where
    incomplete : (n i : ℕ) → n ≡ length stages → i ≤ 1 → leb n i ≡ false
    incomplete n i e le = ground arith
