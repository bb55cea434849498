-- ===== src/Session/Handlers/Fair/Served.antt =====
-- Each handler of a session's life (governance/confirm.go, turns.go, abort.go, patch_decision.go) as a
-- change of the service among others.
use ai_governance_orchestrat.Audit.Event.{Event}
use ai_governance_orchestrat.Prelude.{ℕ, String, Option, none, some, List, refl, inl, inr}
use ai_governance_orchestrat.Session.Record.{SessionRecord}
use ai_governance_orchestrat.Session.Service.{Environment, Execution}
use ai_governance_orchestrat.Session.Service.Rules.{>>=-Triple, >>-Triple, if-Triple}
use ai_governance_orchestrat.Session.Service.Steady.{
  Confirms, Lasting, IsFair, Steady, pure-Steady, answer-Steady, read-Steady, write-Steady,
  append-Adds, check_switch-Steady, refuse_if-Steady, Confirms-stamp, weaken,
}
use ai_governance_orchestrat.Session.Gate.{Config, Orchestrator, HttpRequest, session_event}
use ai_governance_orchestrat.Session.Gate.Steady.{
  authorize-Steady, session_id_for-Steady, read_body-Steady, owned-Steady,
}
use ai_governance_orchestrat.Session.Request.{Body}
use ai_governance_orchestrat.Session.Handlers.{
  confirmation, confirmed, unconfirmed, accepted, found_prompt, serve_confirm, TurnRequest,
  turn_choice, check_turn_agent, turn_waits, turn_starts, turn_confirmed, serve_turn, serve_abort,
  DecisionRequest, serve_patch_decision,
}
use ai_governance_orchestrat.Session.Handlers.Fair.{
  WithEvent, after-Lasting, run_async-Steady, update-Steady, swap-Steady, set_session_status-Steady,
  set_routed-Steady, remember-Steady, append_next-Steady, check_secrets-Steady, routed-Steady,
  remember_prompt-Harmless, forget_prompt-Harmless, publish_event-Harmless,
  cancel_execution-Harmless,
}

module _ (env : Environment) (fair : (n : ℕ) → IsFair (env.meanwhile n)) {Usd : Type 0}
    (config : Config Usd) (orch : Orchestrator) (request : HttpRequest) where
  -- After the confirmation, with its event in the log.
  module _ (K : List Event → Type 0) (lasting : Lasting K) (id agent prompt : String) where
    abbrev run : Execution
    run = record { session_id = id; agent = agent; prompt = prompt }

    abbrev Noted : List Event → Type 0
    Noted = WithEvent K (Confirms run)

    noted : Lasting Noted
    noted = after-Lasting env fair K lasting run

    confirmed-Steady :
        Steady env fair Noted noted (confirmed config orch env request id agent prompt)
    unfolding confirmed
    confirmed-Steady = >>-Triple (remember-Steady env fair Noted noted 9 id _) (
        >>=-Triple (swap-Steady env fair Noted noted 10 id "confirming" "confirmed") λ problem.
          >>-Triple (refuse_if-Steady env fair Noted noted _ 409 "session state transition failed")
            (>>-Triple (write-Steady env fair Noted noted 11 _ (forget_prompt-Harmless id)) (
              >>-Triple (run_async-Steady env fair K lasting run 12)
                (answer-Steady env fair Noted noted 200 "confirmed"))))

    turn_starts-Steady :
        Steady env fair Noted noted (turn_starts config orch env request id agent prompt)
    unfolding turn_starts
    turn_starts-Steady = >>-Triple (remember-Steady env fair Noted noted 11 id _) (
        >>-Triple
          (write-Steady env fair Noted noted 12 _ (publish_event-Harmless env.now id "stream" _))
          (>>-Triple (write-Steady env fair Noted noted 13 _ (forget_prompt-Harmless id)) (
            >>-Triple (run_async-Steady env fair K lasting run 14)
              (answer-Steady env fair Noted noted 202 "running"))))

  module _ (K : List Event → Type 0) (lasting : Lasting K) where
    unconfirmed-Steady :
        (id : String) (code : ℕ) (text : String)
        → Steady env fair K lasting (unconfirmed config orch env request id code text)
    unfolding unconfirmed
    unconfirmed-Steady id code text =
        >>-Triple (set_session_status-Steady env fair K lasting 14 id "awaiting_confirmation")
          (answer-Steady env fair K lasting code text)

    accepted-Steady :
        (id actor agent prompt : String)
        → Steady env fair K lasting (accepted config orch env request id actor agent prompt)
    unfolding accepted confirmation session_event
    accepted-Steady id actor agent prompt =
        >>=-Triple (read-Steady env fair K lasting 7 _) λ parent.
          append-Adds env fair K lasting (Confirms (run K lasting id agent prompt)) 8 _
            (Confirms-stamp (run K lasting id agent prompt) env.now
              (confirmation config orch env request "session.confirmed" id actor agent parent)
              (refl, refl, inl refl))
            (weaken K _ (confirmed-Steady K lasting id agent prompt))
            (unconfirmed-Steady id 500 "audit write failed")

    found_prompt-Steady :
        (o : Option String) → Steady env fair K lasting (found_prompt config orch env request o)
    found_prompt-Steady none = answer-Steady env fair K lasting 409 "session prompt unavailable"
    found_prompt-Steady (some prompt) = pure-Steady env fair K lasting prompt

    pub serve_confirm-Steady :
        (body : Body String)
        → Steady env fair K lasting (serve_confirm config orch env request body)
    unfolding serve_confirm
    serve_confirm-Steady body =
        >>=-Triple (authorize-Steady env fair K lasting config request 0) λ actor.
          >>=-Triple (session_id_for-Steady env fair K lasting config request "/confirm") λ id.
            >>=-Triple (read_body-Steady env fair K lasting body) λ agent.
              >>-Triple (refuse_if-Steady env fair K lasting _ 400 "agent is required") (
                >>-Triple (check_switch-Steady env fair K lasting 1 config.kill_switch _ agent) (
                  >>=-Triple (read-Steady env fair K lasting 3 _) λ kept.
                    >>=-Triple (found_prompt-Steady kept) λ prompt.
                      >>=-Triple (owned-Steady env fair K lasting 4 id actor) λ rec.
                        >>-Triple
                          (refuse_if-Steady env fair K lasting _ 409
                            "confirmed agent does not match routed specialist")
                          (>>=-Triple
                            (swap-Steady env fair K lasting 5 id "awaiting_confirmation"
                              "confirming")
                            λ problem.
                              >>-Triple
                                (refuse_if-Steady env fair K lasting _ 409
                                  "session state transition failed")
                                (if-Triple _ (accepted-Steady id actor agent prompt)
                                  (unconfirmed-Steady id 502 "orchestrator accept failed")))))

    turn_confirmed-Steady :
        (id actor agent prompt : String)
        → Steady env fair K lasting (turn_confirmed config orch env request id actor agent prompt)
    unfolding turn_confirmed confirmation session_event
    turn_confirmed-Steady id actor agent prompt =
        >>-Triple (refuse_if-Steady env fair K lasting _ 502 "orchestrator accept failed") (
          >>=-Triple (read-Steady env fair K lasting 9 _) λ parent.
            append-Adds env fair K lasting (Confirms (run K lasting id agent prompt)) 10 _
              (Confirms-stamp (run K lasting id agent prompt) env.now
                (confirmation config orch env request "session.turn.confirmed" id actor agent
                  parent)
                (refl, refl, inr refl))
              (weaken K _ (turn_starts-Steady K lasting id agent prompt))
              (answer-Steady env fair K lasting 500 "audit write failed"))

    turn_waits-Steady :
        (id agent : String)
        → Steady env fair K lasting (turn_waits config orch env request id agent)
    unfolding turn_waits
    turn_waits-Steady id agent =
        >>=-Triple (set_routed-Steady env fair K lasting 9 id agent) λ unrouted.
          >>-Triple (refuse_if-Steady env fair K lasting _ 500 "routed agent update failed") (
            >>=-Triple (update-Steady env fair K lasting 10 id "awaiting_confirmation") λ unmoved.
              >>-Triple (refuse_if-Steady env fair K lasting _ 500 "session status update failed")
                (answer-Steady env fair K lasting 200 "awaiting_confirmation"))

    check_turn_agent-Steady :
        (turn : TurnRequest)
        → Steady env fair K lasting (check_turn_agent config orch env request turn)
    unfolding check_turn_agent
    check_turn_agent-Steady turn = if-Triple _ (pure-Steady env fair K lasting tt) (
        >>=-Triple (read-Steady env fair K lasting 3 _)
          λ blocked. refuse_if-Steady env fair K lasting _ 423 _)

    turn_choice-Steady :
        (id : String) (turn : TurnRequest) (rec : SessionRecord)
        → Steady env fair K lasting (turn_choice config orch env request id turn rec)
    unfolding turn_choice
    turn_choice-Steady id turn rec =
        if-Triple _ (routed-Steady env fair K lasting config orch request id turn.prompt rec)
          (pure-Steady env fair K lasting _)

    pub serve_turn-Steady :
        (body : Body TurnRequest)
        → Steady env fair K lasting (serve_turn config orch env request body)
    unfolding serve_turn
    serve_turn-Steady body =
        >>=-Triple (authorize-Steady env fair K lasting config request 0) λ actor.
          >>=-Triple (session_id_for-Steady env fair K lasting config request "/turns") λ id.
            >>=-Triple (read_body-Steady env fair K lasting body) λ turn.
              >>-Triple (refuse_if-Steady env fair K lasting _ 400 "prompt is required") (
                >>-Triple
                  (check_secrets-Steady env fair K lasting config orch request 1 actor turn.prompt
                    "secret detected in follow-up turn")
                  (>>=-Triple (owned-Steady env fair K lasting 2 id actor) λ rec.
                    >>-Triple
                      (refuse_if-Steady env fair K lasting _ 409
                        "session is not ready for a follow-up turn")
                      (>>-Triple (check_turn_agent-Steady turn) (
                        >>-Triple (write-Steady env fair K lasting 4 _ λ s. (refl, refl, refl)) (
                          >>-Triple
                            (write-Steady env fair K lasting 5 _
                              (remember_prompt-Harmless env.now id turn.prompt))
                            (>>=-Triple (turn_choice-Steady id turn rec) λ choice.
                              >>=-Triple
                                (append_next-Steady env fair K lasting config orch request 6 id _)
                                λ written.
                                  >>-Triple
                                    (refuse_if-Steady env fair K lasting _ 500 "audit write failed")
                                    (>>-Triple (remember-Steady env fair K lasting 8 id _) (
                                      if-Triple _
                                        (turn_confirmed-Steady id actor choice.0 turn.prompt)
                                        (turn_waits-Steady id choice.0)))))))))

    pub serve_abort-Steady : Steady env fair K lasting (serve_abort config orch env request)
    unfolding serve_abort
    serve_abort-Steady =
        >>-Triple (refuse_if-Steady env fair K lasting _ 405 "method not allowed") (
          >>=-Triple (session_id_for-Steady env fair K lasting config request "/abort") λ id.
            >>=-Triple (owned-Steady env fair K lasting 0 id _) λ rec.
              >>=-Triple (append_next-Steady env fair K lasting config orch request 1 id _)
                λ written.
                  >>-Triple (refuse_if-Steady env fair K lasting _ 500 "audit write failed") (
                    >>-Triple (remember-Steady env fair K lasting 3 id _) (
                      >>=-Triple (swap-Steady env fair K lasting 4 id rec.status "aborted")
                        λ problem.
                          >>-Triple
                            (refuse_if-Steady env fair K lasting _ 409
                              "session state transition failed")
                            (>>-Triple
                              (write-Steady env fair K lasting 5 _
                                (cancel_execution-Harmless config.local_state_ttl env.now id))
                              (>>-Triple
                                (write-Steady env fair K lasting 6 _
                                  (publish_event-Harmless env.now id "abort" _))
                                (>>-Triple
                                  (write-Steady env fair K lasting 7 _ λ s. (refl, refl, refl))
                                  (answer-Steady env fair K lasting 200 "aborted")))))))

    pub serve_patch_decision-Steady :
        (body : Body DecisionRequest)
        → Steady env fair K lasting (serve_patch_decision config orch env request body)
    unfolding serve_patch_decision
    serve_patch_decision-Steady body =
        >>=-Triple (authorize-Steady env fair K lasting config request 0) λ actor.
          >>=-Triple (session_id_for-Steady env fair K lasting config request "/patch-decision")
            λ id. >>=-Triple (owned-Steady env fair K lasting 1 id actor) λ rec.
              >>=-Triple (read_body-Steady env fair K lasting body) λ req.
                >>-Triple (refuse_if-Steady env fair K lasting _ 400 "patch_id is required") (
                  >>-Triple (refuse_if-Steady env fair K lasting _ 400 "decision is required") (
                    >>-Triple (refuse_if-Steady env fair K lasting _ 400 "invalid decision") (
                      >>=-Triple (read-Steady env fair K lasting 2 _) λ known.
                        >>-Triple
                          (refuse_if-Steady env fair K lasting _ 409
                            "patch is not known for session")
                          (>>=-Triple
                            (append_next-Steady env fair K lasting config orch request 3 id _)
                            λ written.
                              >>-Triple
                                (refuse_if-Steady env fair K lasting _ 500 "audit write failed")
                                (>>-Triple (remember-Steady env fair K lasting 5 id _)
                                  (answer-Steady env fair K lasting 200 req.decision))))))
