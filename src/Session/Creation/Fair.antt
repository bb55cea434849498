-- ===== src/Session/Creation/Fair.antt =====
-- createSession (governance/sessions.go) among other requests.
use ai_governance_orchestrat.Audit.Event.{Event}
use ai_governance_orchestrat.Prelude.Dict.{lookup, lookup-insert}
use ai_governance_orchestrat.Prelude.{
  ℕ, String, Bool, true, false, Option, none, some, List, ◌==◌, ◌≡◌, ◌≢◌, ◌⊎◌, refl, sym, subst,
  ◌∙◌, eq_iff, if◌then◌else◌, inl, inr, Bool-cases,
}
use ai_governance_orchestrat.Session.Record.{SessionRecord, Sessions, create, create_row}
use ai_governance_orchestrat.Session.Service.{Service, Environment, attempt}
use ai_governance_orchestrat.Session.Service.Rules.{>>=-Triple, >>-Triple, if-Triple}
use ai_governance_orchestrat.Session.Service.Steady.{
  Any, Creates, Holds, Lasting, IsFair, Steady, pure-Steady, answer-Steady, write-Steady,
  append-Adds, deny-Steady, check_switch-Steady, refuse_if-Steady, Creates-stamp, weaken,
  Any-Lasting,
}
use ai_governance_orchestrat.Session.Handlers.Fair.{
  WithEvent, remember_event_id-Harmless, remember_prompt-Harmless,
}
use ai_governance_orchestrat.Session.Gate.{Config, HttpRequest, PolicyDecision, session_event}
use ai_governance_orchestrat.Session.Gate.Steady.{authorize-Steady, read_body-Steady}
use ai_governance_orchestrat.Session.Request.{CreateSessionRequest, Body, WorkItemError}
use ai_governance_orchestrat.Session.Creation.{
  check_decision, created_event, created_record, persist, check_work_item, check_request,
  create_checked, create_session,
}

-- A new record is the one key that `create` may add.
create-missing :
    (broken : Bool) (rec : SessionRecord) (sessions : Sessions) (other : String)
    → lookup other (create broken rec sessions).1 ≢ none
    → (rec.session_id ≡ other) ⊎ (lookup other sessions ≢ none)
unfolding create
create-missing true rec sessions other found = inr found
create-missing false rec sessions other found = by_row (lookup rec.session_id sessions) found
  where
    by_row :
        (o : Option SessionRecord)
        → lookup other (create_row rec sessions o).1 ≢ none
        → (rec.session_id ≡ other) ⊎ (lookup other sessions ≢ none)
    by_row (some old) there = inr there
    by_row none there = elim (Bool-cases (rec.session_id == other)) [
      | inl same ↦ inl ((eq_iff rec.session_id other).0 same)
      | inr differs ↦ inr (λ missing. there (
          lookup-insert rec.session_id other rec sessions
          ∙ (subst (λ b. (if b then some rec else lookup other sessions) ≡ none) (sym differs)
              missing)))
    ]

module _ (env : Environment) (fair : (n : ℕ) → IsFair (env.meanwhile n)) (K : List Event → Type 0)
    (lasting : Lasting K) where
  -- A session is stored where its creation is in the log.
  module _ (rec : SessionRecord) where
    abbrev Logged : List Event → Type 0
    Logged = WithEvent K (Creates rec.session_id)

    logged_lasting : Lasting Logged
    logged_lasting log e (k, f) = (lasting log e k, Any-Lasting (Creates rec.session_id) log e f)

    stored :
        (broken : Bool) (met : Service)
        → Holds Logged met
        → Holds Logged (record met { sessions = (create broken rec met.sessions).1 })
    stored broken met ((xs, ids), (k, creation)) = (
      (
        xs,
        λ id found. elim (create-missing broken rec met.sessions id found) [
          | inl same ↦ subst (λ i. Any (Creates i) met.log) same creation
          | inr old ↦ ids id old
        ],
      ),
      (k, creation),
    )

    create-Steady :
        (n : ℕ) → Steady env fair Logged logged_lasting (attempt env n λ broken. create broken rec)
    unfolding attempt
    create-Steady n = record {
      ends = λ s h. stored (env.fails n) (env.meanwhile n s) (fair n Logged logged_lasting s h);
    }

  module _ {Usd : Type 0} (config : Config Usd) (request : HttpRequest) where
    persist-Steady :
        (actor : String) (r : CreateSessionRequest Usd)
        → let rec = created_record config env request actor r in
          Steady env fair (Logged rec) (logged_lasting rec) (persist config env request actor r)
    unfolding persist
    persist-Steady actor r =
        let rec = created_record config env request actor r in
        >>=-Triple (create-Steady rec 7) λ problem.
          >>-Triple
            (refuse_if-Steady env fair (Logged rec) (logged_lasting rec) _ 500
              "session store failed")
            (>>-Triple
              (write-Steady env fair (Logged rec) (logged_lasting rec) 8 _
                (remember_prompt-Harmless env.now (env.new_id 0) r.prompt))
              (>>-Triple
                (write-Steady env fair (Logged rec) (logged_lasting rec) 9 _
                  (remember_event_id-Harmless (env.new_id 0) (env.new_id 1)))
                (answer-Steady env fair (Logged rec) (logged_lasting rec) 201 "created")))

    check_decision-Steady :
        (actor : String) (r : CreateSessionRequest Usd) (o : Option PolicyDecision)
        → Steady env fair K lasting (check_decision config env request actor r o)
    unfolding check_decision
    check_decision-Steady actor r none =
        deny-Steady env fair K lasting 5 _ 503 "policy engine unavailable"
    check_decision-Steady actor r (some decision) =
        if-Triple _ (pure-Steady env fair K lasting tt) (
          if-Triple _ (deny-Steady env fair K lasting 5 _ 402 _)
            (deny-Steady env fair K lasting 5 _ 403 _))

    create_checked-Steady :
        (actor : String) (r : CreateSessionRequest Usd)
        → Steady env fair K lasting (create_checked config env request actor r)
    unfolding create_checked created_event session_event created_record
    create_checked-Steady actor r =
        >>-Triple (check_switch-Steady env fair K lasting 3 config.kill_switch _ r.agent) (
          >>-Triple (check_decision-Steady actor r _) (
            append-Adds env fair K lasting (Creates (env.new_id 0)) 6 _
              (Creates-stamp (env.new_id 0) env.now (created_event config env request actor r)
                (refl, refl))
              (weaken K _ (persist-Steady actor r))
              (answer-Steady env fair K lasting 500 "audit write failed")))

    check_request-Steady :
        (o : Option String) → Steady env fair K lasting (check_request config env request o)
    unfolding check_request
    check_request-Steady none = pure-Steady env fair K lasting tt
    check_request-Steady (some problem) = answer-Steady env fair K lasting 400 problem

    check_work_item-Steady :
        (text_of : WorkItemError → String) (actor : String) (r : CreateSessionRequest Usd)
        (o : Option WorkItemError)
        → Steady env fair K lasting (check_work_item config env request text_of actor r o)
    unfolding check_work_item
    check_work_item-Steady text_of actor r none = pure-Steady env fair K lasting tt
    check_work_item-Steady text_of actor r (some problem) = deny-Steady env fair K lasting 3 _ 428 _

    pub create_session-Steady :
        (text_of : WorkItemError → String) (body : Body (CreateSessionRequest Usd))
        → Steady env fair K lasting (create_session config env request text_of body)
    unfolding create_session
    create_session-Steady text_of body =
        >>=-Triple (authorize-Steady env fair K lasting config request 0) λ actor.
          >>-Triple (check_switch-Steady env fair K lasting 1 config.kill_switch _ "") (
            >>=-Triple (read_body-Steady env fair K lasting body) λ sent.
              >>-Triple (check_request-Steady _) (
                >>-Triple (check_work_item-Steady text_of actor _ _)
                  (create_checked-Steady actor _)))
