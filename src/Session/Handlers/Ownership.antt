-- ===== src/Session/Handlers/Ownership.antt =====
-- Requests on a session of another actor (governance/messages.go, confirm.go, turns.go, abort.go,
-- patch_decision.go).
use ai_governance_orchestrat.Prelude.Dict.{lookup}
use ai_governance_orchestrat.Prelude.{
  ℕ, String, Bool, true, false, Option, none, some, List, ◌==◌, ◌≡◌, ◌≢◌, refl, sym, subst, eq_iff,
  Bool-cases, inl, inr,
}
use ai_governance_orchestrat.Session.Auth.{
  AuthOutcome, subject, refused, require_authorized_request, actor_from_context,
}
use ai_governance_orchestrat.Session.Gate.{
  Config, Orchestrator, HttpRequest, admit, authorize, session_id_for, read_body, check_owner,
  owned,
}
use ai_governance_orchestrat.Session.Record.{SessionRecord, Sessions, get}
use ai_governance_orchestrat.Session.Request.{Body, decoded, undecodable, extract_session_id}
use ai_governance_orchestrat.Session.Service.{Execution, Environment, Handler, pure, read, ◌>>=◌}
use ai_governance_orchestrat.Session.Service.Rules.{Triple, >>=-Triple, >>-Triple, if-Triple}
use ai_governance_orchestrat.Session.Service.Quiet.{
  IsQuiet, On, Keeps, pure-Keeps, answer-Keeps, read-Keeps, deny-Keeps, check_switch-Keeps,
  refuse_if-Keeps,
}
use ai_governance_orchestrat.Session.Handlers.{
  check_secrets, found_prompt, TurnRequest, DecisionRequest, serve_message, serve_confirm,
  serve_turn, serve_abort, serve_patch_decision,
}

get-lookup :
    (broken : Bool) (id : String) (sessions : Sessions) (rec : SessionRecord)
    → get broken id sessions ≡ some rec
    → lookup id sessions ≡ some rec
unfolding get
get-lookup true id sessions rec e = absurd (cc)
get-lookup false id sessions rec e = e

module _ (env : Environment) (quiet : IsQuiet env) {Usd : Type 0} (config : Config Usd)
    (orch : Orchestrator) (request : HttpRequest) (sessions : Sessions)
    (executions : List Execution) where
  -- The sessions and the executions are still these.
  abbrev pub Still : Sessions → List Execution → Type 0
  Still ss xs = (ss ≡ sessions) × (xs ≡ executions)

  -- The session, if there is one, belongs to another actor.
  abbrev pub Foreign : String → String → Type 0
  Foreign id actor =
      (rec : SessionRecord) → lookup id sessions ≡ some rec → rec.actor_subject ≢ actor

  -- A handler that gives no value: every path through it has answered.
  abbrev Stops : {A : Type 0} → Handler A → Type 0
  Stops m = Triple (On Still) m (λ _ _. ⊥) (λ _. On Still)

  stopped :
      {A B : Type 0} {m : Handler A} (f : A → Handler B)
      → Stops m
      → Triple (On Still) (m >>= f) (λ _. On Still) (λ _. On Still)
  stopped f h = >>=-Triple h λ a. record { ends = λ s never. absurd never }

  -- A step with a fact on its value, which the next may use.
  next_with :
      {A B : Type 0} {m : Handler A} {f : A → Handler B} (F : A → Type 0)
      → Triple (On Still) m (λ a s. F a × On Still s) (λ _. On Still)
      → ((a : A) → F a → Triple (On Still) (f a) (λ _. On Still) (λ _. On Still))
      → Triple (On Still) (m >>= f) (λ _. On Still) (λ _. On Still)
  next_with F first next = >>=-Triple first λ a. record { ends = λ s h. (next a h.0).ends s h.1 }

  check_owner-Stops :
      (id actor : String) (o : Option SessionRecord)
      → Foreign id actor
      → ((rec : SessionRecord) → o ≡ some rec → lookup id sessions ≡ some rec)
      → Stops (check_owner actor o)
  unfolding check_owner
  check_owner-Stops id actor none foreign found =
      answer-Keeps env quiet Still 404 "session not found"
  check_owner-Stops id actor (some rec) foreign found =
      elim (Bool-cases (rec.actor_subject == actor)) [
        | inl same ↦ absurd (foreign rec (found rec refl) ((eq_iff rec.actor_subject actor).0 same))
        | inr other ↦ rw other (answer-Keeps env quiet Still 403 "session ownership mismatch")
      ]

  owned-Stops : (n : ℕ) (id actor : String) → Foreign id actor → Stops (owned env n id actor)
  unfolding owned read
  owned-Stops n id actor foreign =
      >>=-Triple
        {Q = λ o s.
          ((rec : SessionRecord) → o ≡ some rec → lookup id sessions ≡ some rec) × On Still s}
        (record {
          ends = λ s h. rw (quiet n s) (
            (λ rec e.
                subst (λ ss. lookup id ss ≡ some rec) h.0
                  (get-lookup (env.fails n) id s.sessions rec e)),
            h,
          );
        })
        λ o. record { ends = λ s h. (check_owner-Stops id actor o foreign h.0).ends s h.1 }

  -- The actor that the request is let in as.
  abbrev pub IsActor : String → Type 0
  IsActor actor =
      (name : String) × (require_authorized_request config.auth request.credentials ≡ subject name)
      × (actor ≡ actor_from_context name)

  admitted :
      (n : ℕ) (o : AuthOutcome)
      → require_authorized_request config.auth request.credentials ≡ o
      → Triple
          (On Still)
          (admit config env request n o)
          (λ actor s. IsActor actor × On Still s)
          (λ _. On Still)
  unfolding admit pure
  admitted n (subject name) e = record { ends = λ s h. ((name, e, refl), h) }
  admitted n (refused why code text) e = deny-Keeps env quiet Still n _ code text

  authorized :
      (n : ℕ)
      → Triple
          (On Still)
          (authorize config env request n)
          (λ actor s. IsActor actor × On Still s)
          (λ _. On Still)
  unfolding authorize
  authorized n =
      >>-Triple (refuse_if-Keeps env quiet Still _ 405 "method not allowed") (admitted n _ refl)

  abbrev pub id_for : String → String
  id_for suffix = extract_session_id request.path "/v1/sessions/" suffix

  identified :
      (suffix : String)
      → Triple
          (On Still)
          (session_id_for config env request suffix)
          (λ id s. (id ≡ id_for suffix) × On Still s)
          (λ _. On Still)
  unfolding session_id_for pure
  identified suffix =
      >>-Triple (refuse_if-Keeps env quiet Still _ 400 "valid session ID is required")
        (record { ends = λ s h. (refl, h) })

  read_body-Keeps : {A : Type 0} (body : Body A) → Keeps env quiet Still (read_body body)
  unfolding read_body
  read_body-Keeps (decoded a) = pure-Keeps env quiet Still a
  read_body-Keeps (undecodable problem) = answer-Keeps env quiet Still 400 "invalid request body"

  check_secrets-Keeps :
      (n : ℕ) (actor prompt why : String)
      → Keeps env quiet Still (check_secrets config orch env request n actor prompt why)
  unfolding check_secrets
  check_secrets-Keeps n actor prompt why =
      if-Triple _ (deny-Keeps env quiet Still n _ 403 "secret detected")
        (pure-Keeps env quiet Still tt)

  found_prompt-Keeps :
      (o : Option String) → Keeps env quiet Still (found_prompt config orch env request o)
  found_prompt-Keeps none = answer-Keeps env quiet Still 409 "session prompt unavailable"
  found_prompt-Keeps (some prompt) = pure-Keeps env quiet Still prompt

  -- No actor that the request may be let in as owns the session that its path names.
  abbrev pub IsForeign : String → Type 0
  IsForeign suffix = (actor : String) → IsActor actor → Foreign (id_for suffix) actor

  named_by_path :
      (suffix id actor : String)
      → IsForeign suffix
      → id ≡ id_for suffix
      → IsActor actor
      → Foreign id actor
  named_by_path suffix id actor foreign e is =
      subst (λ i. Foreign i actor) (sym e) (foreign actor is)

  pub message-Keeps :
      IsForeign "/messages"
      → (blank : SessionRecord) (body : Body String)
      → Keeps env quiet Still (serve_message config orch env request blank body)
  unfolding serve_message
  message-Keeps foreign blank body = next_with IsActor (authorized 0) λ actor is.
      next_with (λ id. id ≡ id_for "/messages") (identified "/messages")
        λ id e.
          >>-Triple (check_switch-Keeps env quiet Still 1 config.kill_switch _ "")
            (stopped _ (owned-Stops 3 id actor (named_by_path "/messages" id actor foreign e is)))

  pub confirm-Keeps :
      IsForeign "/confirm"
      → (body : Body String) → Keeps env quiet Still (serve_confirm config orch env request body)
  unfolding serve_confirm
  confirm-Keeps foreign body = next_with IsActor (authorized 0) λ actor is.
      next_with (λ id. id ≡ id_for "/confirm") (identified "/confirm")
        λ id e. >>=-Triple (read_body-Keeps body) λ agent.
          >>-Triple (refuse_if-Keeps env quiet Still _ 400 "agent is required") (
            >>-Triple (check_switch-Keeps env quiet Still 1 config.kill_switch _ agent) (
              >>=-Triple (read-Keeps env quiet Still 3 _) λ kept.
                >>=-Triple (found_prompt-Keeps kept) λ prompt.
                  stopped _
                    (owned-Stops 4 id actor (named_by_path "/confirm" id actor foreign e is))))

  pub turn-Keeps :
      IsForeign "/turns"
      → (body : Body TurnRequest) → Keeps env quiet Still (serve_turn config orch env request body)
  unfolding serve_turn
  turn-Keeps foreign body = next_with IsActor (authorized 0) λ actor is.
      next_with (λ id. id ≡ id_for "/turns") (identified "/turns")
        λ id e. >>=-Triple (read_body-Keeps body) λ turn.
          >>-Triple (refuse_if-Keeps env quiet Still _ 400 "prompt is required") (
            >>-Triple (check_secrets-Keeps 1 actor turn.prompt "secret detected in follow-up turn")
              (stopped _ (owned-Stops 2 id actor (named_by_path "/turns" id actor foreign e is))))

  pub decision-Keeps :
      IsForeign "/patch-decision"
      → (body : Body DecisionRequest)
      → Keeps env quiet Still (serve_patch_decision config orch env request body)
  unfolding serve_patch_decision
  decision-Keeps foreign body = next_with IsActor (authorized 0) λ actor is.
      next_with (λ id. id ≡ id_for "/patch-decision") (identified "/patch-decision")
        λ id e.
          stopped _ (owned-Stops 1 id actor (named_by_path "/patch-decision" id actor foreign e is))

  pub abort-Keeps :
      Foreign (id_for "/abort") (actor_from_context request.credentials.context_subject)
      → Keeps env quiet Still (serve_abort config orch env request)
  unfolding serve_abort
  abort-Keeps foreign = >>-Triple (refuse_if-Keeps env quiet Still _ 405 "method not allowed") (
      next_with (λ id. id ≡ id_for "/abort") (identified "/abort")
        λ id e. stopped _ (
          owned-Stops 0 id (actor_from_context request.credentials.context_subject) (
            subst (λ i. Foreign i (actor_from_context request.credentials.context_subject)) (sym e)
              foreign)))
