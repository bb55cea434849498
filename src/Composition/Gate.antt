-- ===== src/Composition/Gate.antt =====
-- The human gate of CanProceed and Advance (composition/composition.go), over runs of calls.
use ai_governance_orchestrat.Prelude.{
  ℕ, ◌+◌, ◌≤◌, ◌<◌, String, true, Option, none, some, List, [], ◌∷◌, ◌≡◌, refl, arith, get_elem?,
  set, get_elem?-set_ne, inl, inr, nat_cases,
}
use ai_governance_orchestrat.Composition.{
  Stage, Composition, Error, new_composition, proceed_from, can_proceed, approve_at, approve_stage,
  complete_at, complete_stage, carry, advance_unless, advance,
}
use ai_governance_orchestrat.Composition.Progress.{
  Op, approve, complete, advance_op, kept, step, run,
}

abbrev pub IsPassed : Option Stage → Type 0
IsPassed none = Unit
IsPassed (some stage) = (stage.approved ≡ true) × (stage.completed ≡ true)

-- Every stage before the current one was approved and completed.
abbrev pub Gated : Composition → Type 0
Gated c = (i : ℕ) → i < c.current_idx → IsPassed (get_elem? c.stages i)

-- A write at or after the current stage leaves the earlier ones.
Gated-set :
    (c : Composition) (k : ℕ) (stage : Stage)
    → c.current_idx ≤ k
    → Gated c
    → Gated (record c { stages = set c.stages k stage })
Gated-set c k stage le g i lt = rw (get_elem?-set_ne c.stages k i stage (λ e. omega arith)) (g i lt)

approve_at-Gated : (c : Composition) (o : Option Stage) → Gated c → Gated (kept c (approve_at c o))
unfolding approve_at
approve_at-Gated c none g = g
approve_at-Gated c (some stage) g = Gated-set c c.current_idx _ (omega arith) g

complete_at-Gated :
    (c : Composition) (output : String) (o : Option Stage)
    → Gated c
    → Gated (kept c (complete_at c output o))
unfolding complete_at
complete_at-Gated c output none g = g
complete_at-Gated c output (some stage) g = Gated-set c c.current_idx _ (omega arith) g

proceed_from-IsPassed : (c : Composition) (o : Option Stage) → proceed_from c o ≡ none → IsPassed o
unfolding proceed_from
proceed_from-IsPassed c none e = tt
proceed_from-IsPassed c (some stage) e = ground arith

Gated-next :
    (c : Composition)
    → IsPassed (get_elem? c.stages c.current_idx)
    → Gated c
    → Gated (record c { current_idx = c.current_idx + 1 })
Gated-next c passed g i lt = elim (nat_cases i c.current_idx) [
  | inl e ↦ rw e passed
  | inr d ↦ g i (omega arith)
]

carry-Gated :
    (c : Composition) (o next : Option Stage)
    → Gated (record c { current_idx = c.current_idx + 1 })
    → Gated (carry c o next)
unfolding carry
carry-Gated c (some stage) (some next) g =
    Gated-set (record c { current_idx = c.current_idx + 1 }) (c.current_idx + 1) _ (omega arith) g
carry-Gated c (some stage) none g = g
carry-Gated c none next g = g

advance_unless-Gated :
    (c : Composition) (o : Option Error)
    → (o ≡ none → IsPassed (get_elem? c.stages c.current_idx))
    → Gated c
    → Gated (kept c (advance_unless c o))
unfolding advance_unless
advance_unless-Gated c (some e) passed g = g
advance_unless-Gated c none passed g =
    carry-Gated c (get_elem? c.stages c.current_idx) (get_elem? c.stages (c.current_idx + 1))
      (Gated-next c (passed refl) g)

step-Gated : (c : Composition) (op : Op) → Gated c → Gated (step c op)
unfolding step approve_stage complete_stage advance can_proceed
step-Gated c approve g = approve_at-Gated c (get_elem? c.stages c.current_idx) g
step-Gated c (complete output) g = complete_at-Gated c output (get_elem? c.stages c.current_idx) g
step-Gated c advance_op g =
    advance_unless-Gated c (proceed_from c (get_elem? c.stages c.current_idx))
      (proceed_from-IsPassed c (get_elem? c.stages c.current_idx)) g

run-keeps_Gated : (c : Composition) (ops : List Op) → Gated c → Gated (run c ops)
unfolding run
run-keeps_Gated c [] g = g
run-keeps_Gated c (op ∷ ops) g = run-keeps_Gated (step c op) ops (step-Gated c op g)

-- The human gate holds: whatever calls of approve, complete and advance are made on a new
-- composition, every stage before the current one is approved and completed.
pub run-Gated :
    (session_id : String) (stages : List Stage) (ops : List Op)
    → Gated (run (new_composition session_id stages) ops)
unfolding new_composition
run-Gated session_id stages ops =
    run-keeps_Gated
      (record {
        session_id = session_id;
        stages = stages;
        current_idx = 0;
        max_depth = 2;
        description = "";
      })
      ops (λ i lt. absurd (omega arith))
