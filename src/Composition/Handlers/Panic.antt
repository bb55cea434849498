-- ===== src/Composition/Handlers/Panic.antt =====
-- When the success response of POST .../advance reads a stage that does not exist.
use ai_governance_orchestrat.Prelude.Dict.{lookup}
use ai_governance_orchestrat.Prelude.{
  ◌+◌, String, Option, none, some, ◌≡◌, ◌≢◌, refl, sym, ap, ◌∙◌, ◌↔◌, eq_refl, arith, length,
  get_elem?, get_elem?-set_self, get_elem?-some_lt, get_elem?-none, none-get_elem?,
}
use ai_governance_orchestrat.Composition.{
  Stage, Composition, Error, proceed_from, can_proceed, carry, advance_unless, advance,
}
use ai_governance_orchestrat.Composition.Handlers.{
  Store, Response, panic, settled, stage_response, advance_answer, advance_composition,
  advance_status,
}

-- The answer, from the outcome of CanProceed.
answer_to : Store → String → Composition → Option Error → Response
answer_to store session_id c o = (advance_answer (settled store session_id (advance_unless c o))).0

-- An error of Advance is answered by a status.
advance_status-ne_panic : (e : Error) → advance_status e ≢ panic
unfolding advance_status
advance_status-ne_panic e p = ground arith

carried-panic :
    (c : Composition) (stage : Stage) (next : Option Stage)
    → get_elem? c.stages (c.current_idx + 1) ≡ next
    → stage_response
        (carry c (some stage) next)
        (get_elem? (carry c (some stage) next).stages (carry c (some stage) next).current_idx)
      ≡ panic
    → next ≡ none
unfolding carry stage_response
carried-panic c stage none e p = refl
carried-panic c stage (some next) e p = absurd (
    ground (
      arith,
      get_elem?-set_self c.stages (c.current_idx + 1) (record next { input = stage.output })
          (get_elem?-some_lt c.stages (c.current_idx + 1) next e),
    ))

panic-carried :
    (c : Composition) (stage : Stage)
    → get_elem? c.stages (c.current_idx + 1) ≡ none
    → stage_response
        (carry c (some stage) none)
        (get_elem? (carry c (some stage) none).stages (carry c (some stage) none).current_idx)
      ≡ panic
unfolding carry stage_response
panic-carried c stage e = rw e

proceeds_at :
    (c : Composition) (o : Option Stage)
    → proceed_from c o ≡ none
    → (stage : Stage) × (o ≡ some stage)
unfolding proceed_from
proceeds_at c none e = absurd (cc)
proceeds_at c (some stage) e = (stage, refl)

carried_answer :
    (store : Store) (session_id : String) (c : Composition) (stage : Stage)
    → get_elem? c.stages c.current_idx ≡ some stage
    → answer_to store session_id c none ≡ (
        let c' = carry c (some stage) (get_elem? c.stages (c.current_idx + 1)) in
        stage_response c' (get_elem? c'.stages c'.current_idx))
unfolding answer_to advance_answer settled advance_unless
carried_answer store session_id c stage here =
    ap
      (λ (o : Option Stage).
        let c' = carry c o (get_elem? c.stages (c.current_idx + 1)) in
        stage_response c' (get_elem? c'.stages c'.current_idx))
      here

answer_to-panic :
    (store : Store) (session_id : String) (c : Composition) (o : Option Error)
    → can_proceed c ≡ o
    → answer_to store session_id c o ≡ panic
    → (can_proceed c ≡ none) × (c.current_idx + 1 ≡ length c.stages)
answer_to-panic store session_id c (some e) eq p =
    absurd (advance_status-ne_panic e (unfold answer_to advance_answer settled advance_unless in p))
answer_to-panic store session_id c none eq p =
    let (stage, here) =
      proceeds_at c (get_elem? c.stages c.current_idx) (unfold can_proceed in eq) in
    let next =
      carried-panic c stage (get_elem? c.stages (c.current_idx + 1)) refl
        (sym (carried_answer store session_id c stage here) ∙ p) in
    (
      eq,
      omega (
        arith,
        get_elem?-some_lt c.stages c.current_idx stage here,
        get_elem?-none c.stages (c.current_idx + 1) next,
      ),
    )

panic-answer_to :
    (store : Store) (session_id : String) (c : Composition)
    → can_proceed c ≡ none
    → c.current_idx + 1 ≡ length c.stages
    → answer_to store session_id c none ≡ panic
panic-answer_to store session_id c free last =
    let (stage, here) =
      proceeds_at c (get_elem? c.stages c.current_idx) (unfold can_proceed in free) in
    let next = none-get_elem? c.stages (c.current_idx + 1) (omega arith) in
    carried_answer store session_id c stage here
    ∙ ap
        (λ (o : Option Stage).
          let c' = carry c (some stage) o in stage_response c' (get_elem? c'.stages c'.current_idx))
        next
    ∙ panic-carried c stage next

-- The handler's answer to the owner.
owner_answer :
    (store : Store) (actor session_id : String) (c : Composition)
    → lookup session_id store ≡ some c
    → (advance_composition store (some actor) actor session_id).0
      ≡ answer_to store session_id c (can_proceed c)
unfolding advance_composition answer_to advance
owner_answer store actor session_id c found = rw (eq_refl actor, found)

-- An advance request by the owner of a session with a composition indexes past the stages, and so
-- panics, exactly if the composition may proceed and its current stage is the last one.
pub advance_composition-panic_iff :
    (store : Store) (actor session_id : String) (c : Composition)
    → lookup session_id store ≡ some c
    → ((advance_composition store (some actor) actor session_id).0 ≡ panic)
      ↔ ((can_proceed c ≡ none) × (c.current_idx + 1 ≡ length c.stages))
advance_composition-panic_iff store actor session_id c found = (
  λ p.
      answer_to-panic store session_id c (can_proceed c) refl
        (sym (owner_answer store actor session_id c found) ∙ p),
  λ (free, last).
      owner_answer store actor session_id c found
      ∙ ap (answer_to store session_id c) free
      ∙ panic-answer_to store session_id c free last,
)
