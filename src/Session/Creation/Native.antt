-- ===== src/Session/Creation/Native.antt =====
-- createSession (governance/sessions.go) with the native policy engine (policyengine/engine.go).
use ai_governance_orchestrat.Audit.Event.{Event, stamp}
use ai_governance_orchestrat.Policy.Engine.{Reason}
use ai_governance_orchestrat.Policy.Engine.Spec.{Permitted}
use ai_governance_orchestrat.Policy.Engine.Allowed.{evaluate-allowed_iff}
use ai_governance_orchestrat.Policy.Secrets.{SecretPattern}
use ai_governance_orchestrat.Prelude.Dict.{lookup}
use ai_governance_orchestrat.Prelude.{
  ℕ, ◌+◌, String, Bool, true, false, Option, none, some, ◌⊎◌, [], ◌∷◌, ◌++◌, ◌≡◌, ◌≢◌, refl, sym,
  subst, arith, if◌then◌else◌, Bool-cases, inl, inr,
}
use ai_governance_orchestrat.Session.Auth.{AuthOutcome, subject, refused}
use ai_governance_orchestrat.Session.Auth.Laws.{require_authorized_request-refused_code}
use ai_governance_orchestrat.Session.Gate.{
  Config, HttpRequest, PolicyDecision, admit, authorize, read_body,
}
use ai_governance_orchestrat.Session.Request.{
  CreateSessionRequest, Body, decoded, undecodable, WorkItemError, validate,
  normalize_runtime_modes, resolve_session_context,
}
use ai_governance_orchestrat.Session.Service.{
  Service, Environment, Reply, Ending, done, answered, Handler, pure, answer, read, append, deny,
  check_switch, refuse_if, ◌>>◌,
}
use ai_governance_orchestrat.Session.Service.Rules.{
  Ends, Triple, >>=-Triple, >>-Triple, if-Triple, Option-Triple,
}
use ai_governance_orchestrat.Session.Creation.{
  native_policy, policy_request, evaluate_policy, check_decision, check_work_item, check_request,
  create_checked, create_session,
}

abbrev pub Never : {A : Type 0} → A → Service → Type 0
Never a s = ⊥

-- No session is stored under an id.
abbrev pub Absent : String → Service → Type 0
Absent id s = lookup id s.sessions ≡ none

-- Nobody else stores a session under the id.
abbrev pub Reserved : Environment → String → Type 0
Reserved env id = (n : ℕ) (s : Service) → Absent id s → Absent id (env.meanwhile n s)

-- A service without the session, after an answer that is not 201; or `Ok` holds.
abbrev pub Settled : Type 0 → String → Reply → Service → Type 0
Settled Ok id r s = Ok ⊎ ((r.code ≢ 201) × Absent id s)

-- The same at an end without an answer.
abbrev pub Unsettled : Type 0 → String → {A : Type 0} → A → Service → Type 0
Unsettled Ok id a s = Ok ⊎ Absent id s

-- A step from a service without the session, that answers 201 or stores it only where `Ok` holds; its
-- value satisfies Q.
abbrev pub Careful : Type 0 → String → {A : Type 0} → Handler A → (A → Service → Type 0) → Type 0
Careful Ok id m Q = Triple (Absent id) m Q (Settled Ok id)

abbrev pub Nothing : String → {A : Type 0} → A → Service → Type 0
Nothing id a s = Absent id s

module _ {Ok : Type 0} (id : String) where
  pure-Careful : {A : Type 0} (a : A) → Careful Ok id (pure a) (Nothing id)
  unfolding pure
  pure-Careful a = record { ends = λ s h. h }

  answer-Careful :
      {A : Type 0} {Q : A → Service → Type 0} (code : ℕ) (text : String)
      → code ≢ 201
      → Careful Ok id (answer code text) Q
  unfolding answer
  answer-Careful code text h = record { ends = λ s absent. inr (h, absent) }

  refuse_if-Careful :
      (bad : Bool) (code : ℕ) (text : String)
      → code ≢ 201
      → Careful Ok id (refuse_if bad code text) (Nothing id)
  unfolding refuse_if
  refuse_if-Careful bad code text h = if-Triple bad (answer-Careful code text h) (pure-Careful tt)

  -- Where the fact holds, any handler is careful.
  granted : {A : Type 0} {m : Handler A} → Ok → Careful Ok id m (Unsettled Ok id)
  granted {A} {m} ok = record { ends = λ s h. any_end (m s) }
    where
      any_end : (e : Ending A × Service) → Ends (Unsettled Ok id) (Settled Ok id) e
      any_end (done a, s) = inl ok
      any_end (answered r, s) = inl ok

  -- What follows a step that gives no value is not run.
  never : {A : Type 0} {m : Handler A} → Triple (λ _. ⊥) m (Unsettled Ok id) (Settled Ok id)
  never = record { ends = λ s h. absurd h }

  module _ (env : Environment) (reserved : Reserved env id) where
    read-Careful :
        {A : Type 0} (n : ℕ) (f : Service → A) → Careful Ok id (read env n f) (Nothing id)
    unfolding read
    read-Careful n f = record { ends = λ s h. reserved n s h }

    append-Careful : (n : ℕ) (e : Event) → Careful Ok id (append env n e) (Nothing id)
    unfolding append
    append-Careful n e = record {
      ends = λ s h.
          elim (env.fails n)
            as (λ b. Ends {A = Bool} (Nothing id) (Settled Ok id) (
              let met = env.meanwhile n s in
              if◌then◌else◌ {A = Ending Bool × Service} b (done false, met)
                (done true, record met { log = met.log ++ stamp env.now e ∷ [] }))) [
                  | true ↦ reserved n s h
                  | false ↦ reserved n s h
                ];
    }

    deny-Careful :
        {A : Type 0} {Q : A → Service → Type 0} (n : ℕ) (e : Event) (code : ℕ) (text : String)
        → code ≢ 201
        → Careful Ok id (deny env n e code text) Q
    unfolding deny
    deny-Careful n e code text h = >>=-Triple (append-Careful n e) λ written.
        if-Triple written (answer-Careful code text h)
          (answer-Careful 500 "audit write failed" (λ e'. omega (arith, e')))

    check_switch-Careful :
        (n : ℕ) (always : Bool) (denied : String → Event) (agent : String)
        → Careful Ok id (check_switch env n always denied agent) (Nothing id)
    unfolding check_switch
    check_switch-Careful n always denied agent = >>=-Triple (read-Careful n _) λ blocked.
        Option-Triple blocked (pure-Careful tt)
          λ reason. deny-Careful (n + 1) (denied reason) 423 reason (λ e. omega (arith, e))

-- A session was made: the answer is 201, or one is stored under the id.
abbrev pub IsMade : String → Ending (Unit {0}) × Service → Type 0
IsMade id e = ((r : Reply) × (e.0 ≡ answered r) × (r.code ≡ 201)) ⊎ (lookup id e.1.sessions ≢ none)

made-Ok :
    {Ok : Type 0} (id : String) (e : Ending (Unit {0}) × Service)
    → Ends (Unsettled Ok id) (Settled Ok id) e
    → IsMade id e
    → Ok
made-Ok id (done a, s) (inl ok) made = ok
made-Ok id (done a, s) (inr absent) (inl (r, answer_is, code)) = absurd (cc)
made-Ok id (done a, s) (inr absent) (inr stored) = absurd (stored absent)
made-Ok id (answered r, s) (inl ok) made = ok
made-Ok id (answered r, s) (inr (other_code, absent)) (inl (r', answer_is, code)) =
    absurd (other_code (ground arith))
made-Ok id (answered r, s) (inr (other_code, absent)) (inr stored) = absurd (stored absent)

-- A step whose value is given.
given :
    {A Ok : Type 0} (id : String) (a : A) → Careful Ok id (pure a) (λ b s. (b ≡ a) × Absent id s)
unfolding pure
given id a = record { ends = λ s h. (refl, h) }

from_fact :
    {A F : Type 0} {P : Service → Type 0} {m : Handler A} {Q : A → Service → Type 0}
    {R : Reply → Service → Type 0}
    → (F → Triple P m Q R)
    → Triple (λ s. F × P s) m Q R
from_fact h = record { ends = λ s (fact, p). (h fact).ends s p }

module _ {Usd : Type 0} (gt : Usd → Usd → Bool) (zero_usd : Usd)
    (matches : SecretPattern → String → Bool) (reason_text : Reason → String) (config : Config Usd)
    (native : config.policy ≡ some (native_policy gt zero_usd matches reason_text))
    (env : Environment) (request : HttpRequest) (reserved : Reserved env (env.new_id 0)) where
  admit-Careful :
      {Ok : Type 0} (n : ℕ) (o : AuthOutcome)
      → ((why text : String) (code : ℕ) → o ≡ refused why code text → code ≢ 201)
      → Careful Ok (env.new_id 0) (admit config env request n o) (Nothing (env.new_id 0))
  unfolding admit
  admit-Careful n (subject name) h = pure-Careful (env.new_id 0) _
  admit-Careful n (refused why code text) h =
      deny-Careful (env.new_id 0) env reserved n _ code text (h why text code refl)

  authorize-Careful :
      {Ok : Type 0} (n : ℕ)
      → Careful Ok (env.new_id 0) (authorize config env request n) (Nothing (env.new_id 0))
  unfolding authorize
  authorize-Careful n =
      >>-Triple
        (refuse_if-Careful (env.new_id 0) _ 405 "method not allowed" (λ e. omega (arith, e)))
        (admit-Careful n _ λ why text code e.
          require_authorized_request-refused_code config.auth request.credentials why text code e)

  decision-denied :
      {Ok : Type 0} (actor : String) (r : CreateSessionRequest Usd) (d : PolicyDecision)
      → d.allowed ≡ false
      → Careful Ok (env.new_id 0) (check_decision config env request actor r (some d)) Never
  unfolding check_decision
  decision-denied actor r d closed = rw closed (
      if-Triple _ (deny-Careful (env.new_id 0) env reserved 5 _ 402 _ (λ e. omega (arith, e)))
        (deny-Careful (env.new_id 0) env reserved 5 _ 403 _ (λ e. omega (arith, e))))

  -- What the creation of a session shows of the request that was sent.
  abbrev pub IsPermitted : CreateSessionRequest Usd → Type 0
  IsPermitted sent =
      (validate (normalize_runtime_modes sent) ≡ none)
      × ((actor : String) × Permitted gt zero_usd matches (
            policy_request config env request actor
              (resolve_session_context config.resolver (normalize_runtime_modes sent))))

  decided :
      {Ok : Type 0} (actor : String) (r : CreateSessionRequest Usd) (d : PolicyDecision)
      (k : Handler (Unit {0}))
      → (d.allowed ≡ true → Ok)
      → Careful Ok
          (env.new_id 0)
          (check_decision config env request actor r (some d) >> k)
          (Unsettled Ok (env.new_id 0))
  decided actor r d k granting = elim (Bool-cases d.allowed) [
    | inl allowed ↦ granted (env.new_id 0) (granting allowed)
    | inr closed ↦ >>-Triple (decision-denied actor r d closed) (never (env.new_id 0))
  ]

  -- The native engine's answer, followed by anything.
  engine_decided :
      (actor : String) (sent : CreateSessionRequest Usd) (k : Handler (Unit {0}))
      → validate (normalize_runtime_modes sent) ≡ none
      → let r = resolve_session_context config.resolver (normalize_runtime_modes sent) in
        let req = policy_request config env request actor r in
        Careful
          (IsPermitted sent)
          (env.new_id 0)
          (check_decision config env request actor r
              (evaluate_policy config env request config.policy req)
            >> k)
          (Unsettled (IsPermitted sent) (env.new_id 0))
  unfolding evaluate_policy native_policy
  engine_decided actor sent k valid =
      let r = resolve_session_context config.resolver (normalize_runtime_modes sent) in
      let req = policy_request config env request actor r in
      subst
        (λ o.
          Careful (IsPermitted sent) (env.new_id 0)
            (check_decision config env request actor r (evaluate_policy config env request o req)
              >> k)
            (Unsettled (IsPermitted sent) (env.new_id 0)))
        (sym native)
        (decided actor r _ k
          λ allowed. (valid, (actor, (evaluate-allowed_iff gt zero_usd matches req "").0 allowed)))

  create_checked-Careful :
      (actor : String) (sent : CreateSessionRequest Usd)
      → validate (normalize_runtime_modes sent) ≡ none
      → Careful
          (IsPermitted sent)
          (env.new_id 0)
          (create_checked config env request actor
            (resolve_session_context config.resolver (normalize_runtime_modes sent)))
          (Unsettled (IsPermitted sent) (env.new_id 0))
  unfolding create_checked
  create_checked-Careful actor sent valid =
      >>-Triple (check_switch-Careful (env.new_id 0) env reserved 3 config.kill_switch _ _)
        (engine_decided actor sent _ valid)

  work_item-Careful :
      {Ok : Type 0} (text_of : WorkItemError → String) (actor : String)
      (r : CreateSessionRequest Usd) (o : Option WorkItemError)
      → Careful Ok
          (env.new_id 0)
          (check_work_item config env request text_of actor r o)
          (Nothing (env.new_id 0))
  unfolding check_work_item
  work_item-Careful text_of actor r none = pure-Careful (env.new_id 0) tt
  work_item-Careful text_of actor r (some problem) =
      deny-Careful (env.new_id 0) env reserved 3 _ 428 _ (λ e. omega (arith, e))

  -- The rest of a creation after the request's own checks.
  checked-Careful :
      (sent : CreateSessionRequest Usd) (k : Handler (Unit {0})) (o : Option String)
      → (o ≡ none
          → Careful
              (IsPermitted sent)
              (env.new_id 0)
              k
              (Unsettled (IsPermitted sent) (env.new_id 0)))
      → Careful
          (IsPermitted sent)
          (env.new_id 0)
          (check_request config env request o >> k)
          (Unsettled (IsPermitted sent) (env.new_id 0))
  unfolding check_request
  checked-Careful sent k none h = >>-Triple (pure-Careful (env.new_id 0) tt) (h refl)
  checked-Careful sent k (some problem) h =
      >>-Triple {Q = Never} (answer-Careful (env.new_id 0) 400 problem (λ e. omega (arith, e)))
        (never (env.new_id 0))

  unsent-Careful :
      (text_of : WorkItemError → String) (problem : String)
      → Careful ⊥
          (env.new_id 0)
          (create_session config env request text_of (undecodable problem))
          (Unsettled ⊥ (env.new_id 0))
  unfolding create_session read_body
  unsent-Careful text_of problem = >>=-Triple (authorize-Careful 0) λ actor.
      >>-Triple (check_switch-Careful (env.new_id 0) env reserved 1 config.kill_switch _ "") (
        >>=-Triple {Q = Never} (answer-Careful (env.new_id 0) 400 _ (λ e. omega (arith, e)))
          λ sent. (never (env.new_id 0)))

  sent-Careful :
      (text_of : WorkItemError → String) (sent : CreateSessionRequest Usd)
      → Careful
          (IsPermitted sent)
          (env.new_id 0)
          (create_session config env request text_of (decoded sent))
          (Unsettled (IsPermitted sent) (env.new_id 0))
  unfolding create_session read_body
  sent-Careful text_of sent = >>=-Triple (authorize-Careful 0) λ actor.
      >>-Triple (check_switch-Careful (env.new_id 0) env reserved 1 config.kill_switch _ "") (
        >>=-Triple (given (env.new_id 0) sent) λ same. from_fact λ e. rw e (
          checked-Careful sent _ (validate (normalize_runtime_modes sent)) λ valid.
            >>-Triple (work_item-Careful text_of actor _ _)
              (create_checked-Careful actor sent valid)))

  -- A session is created, which is to say that the call answers 201 or that the new session is stored
  -- after it, only for a request that passes its checks, and that the native engine's specification
  -- permits, with the configured ceiling and cap; whatever the other requests do meanwhile, as long
  -- as no session is stored under the new id before, and none by them.
  pub create_session-created :
      (text_of : WorkItemError → String) (body : Body (CreateSessionRequest Usd)) (s : Service)
      → Absent (env.new_id 0) s
      → IsMade (env.new_id 0) (create_session config env request text_of body s)
      → (sent : CreateSessionRequest Usd) × (body ≡ decoded sent) × IsPermitted sent
  create_session-created text_of (decoded sent) s absent made = (
    sent,
    refl,
    made-Ok (env.new_id 0) (create_session config env request text_of (decoded sent) s)
        ((sent-Careful text_of sent).ends s absent) made,
  )
  create_session-created text_of (undecodable problem) s absent made = absurd (
      made-Ok (env.new_id 0) (create_session config env request text_of (undecodable problem) s)
        ((unsent-Careful text_of problem).ends s absent) made)
