-- ===== src/Composition/Handlers/Ownership.antt =====
-- requireSessionOwner (governance/composition_handlers.go) before each handler.
use ai_governance_orchestrat.Prelude.{
  String, Option, none, some, List, [], ◌∷◌, ◌≡◌, refl, ap, arith, eq_iff, ◌==◌, Bool-cases, inl,
  inr,
}
use ai_governance_orchestrat.Composition.{Stage, Error, validate_stages}
use ai_governance_orchestrat.Composition.Handlers.{
  Store, Response, session_not_found, ownership_mismatch, require_session_owner, guarded, checked,
  create_composition, advance_composition, get_composition, approve_stage_handler,
  complete_stage_handler,
}

-- The session store knows the session, with the actor as its owner.
abbrev pub Owns : Option String → String → Type 0
Owns none actor = ⊥
Owns (some owner) actor = owner ≡ actor

refusal :
    (owner : Option String) (actor : String)
    → ¬ (Owns owner actor)
    → (r : Response) × (require_session_owner owner actor ≡ some r)
unfolding require_session_owner
refusal none actor n = (session_not_found, refl)
refusal (some owner) actor n = elim (Bool-cases (owner == actor)) [
  | inl e ↦ absurd (n ((eq_iff owner actor).0 e))
  | inr e ↦ rw e (ownership_mismatch, refl)
]

guarded-unchanged :
    (store : Store) (o : Option Response) (r : Response) (answer : Response × Store)
    → o ≡ some r
    → guarded store o answer ≡ (r, store)
unfolding guarded
guarded-unchanged store none r answer e = absurd (cc)
guarded-unchanged store (some x) r answer e = ground arith

checked-unchanged :
    (store : Store) (o : Option Error) (answer : Response × Store)
    → answer.1 ≡ store
    → (checked store o answer).1 ≡ store
unfolding checked
checked-unchanged store none answer e = e
checked-unchanged store (some x) answer e = refl

create-unchanged :
    (store : Store) (owner : Option String) (actor session_id description : String)
    (stages : List Stage)
    → ¬ (Owns owner actor)
    → (create_composition store owner actor session_id description stages).1 ≡ store
unfolding create_composition
create-unchanged store owner actor session_id description [] n = ground arith
create-unchanged store owner actor session_id description (stage ∷ stages) n =
    let (r, e) = refusal owner actor n in
    elim (Bool-cases (session_id == "")) [
      | inl b ↦ rw b refl
      | inr b ↦ rw b (
          checked-unchanged store (validate_stages (stage ∷ stages) 2) _
            (ap (λ p. p.1) (guarded-unchanged store (require_session_owner owner actor) r _ e)))
    ]

-- A request on a session that the session store does not know, or that another actor owns, leaves
-- the compositions as they were, and the advance, get, approve and complete requests are refused with
-- the answer of the ownership test.
pub not_owner-unchanged :
    (store : Store) (owner : Option String) (actor session_id description output : String)
    (stages : List Stage)
    → ¬ (Owns owner actor)
    → ((create_composition store owner actor session_id description stages).1 ≡ store)
      × ((r : Response) × (require_session_owner owner actor ≡ some r)
          × (advance_composition store owner actor session_id ≡ (r, store))
          × (get_composition store owner actor session_id ≡ (r, store))
          × (approve_stage_handler store owner actor session_id ≡ (r, store))
          × (complete_stage_handler store owner actor session_id output ≡ (r, store)))
unfolding advance_composition get_composition approve_stage_handler complete_stage_handler
not_owner-unchanged store owner actor session_id description output stages n =
    let (r, e) = refusal owner actor n in
    (
      create-unchanged store owner actor session_id description stages n,
      (
        r,
        e,
        guarded-unchanged store (require_session_owner owner actor) r _ e,
        guarded-unchanged store (require_session_owner owner actor) r _ e,
        guarded-unchanged store (require_session_owner owner actor) r _ e,
        guarded-unchanged store (require_session_owner owner actor) r _ e,
      ),
    )
