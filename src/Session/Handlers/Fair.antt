-- ===== src/Session/Handlers/Fair.antt =====
-- The handlers of a session's life (governance/messages.go, confirm.go, turns.go, abort.go,
-- patch_decision.go) among other requests.
pub mod Served
use ai_governance_orchestrat.Audit.Event.{Event, stamp}
use ai_governance_orchestrat.Prelude.Dict.{lookup, insert, lookup-insert}
use ai_governance_orchestrat.Prelude.{
  ℕ, ◌+◌, String, Bool, true, false, not, ◌||◌, ◌&&◌, Option, none, some, List, [], ◌∷◌, ◌++◌, ◌==◌,
  ◌≡◌, ◌≢◌, refl, arith, eq_iff, All, All-append, if◌then◌else◌, length, Option-cases, Bool-cases,
  inl, inr,
}
use ai_governance_orchestrat.Session.Record.{
  Sessions, SessionRecord, StoreError, update_status, set_routed_agent, compare_and_swap_status,
}
use ai_governance_orchestrat.Session.Record.Laws.{change-missing, swap-missing}
use ai_governance_orchestrat.Session.Service.{
  Service, Environment, Execution, Handler, pure, write, attempt, ◌>>=◌, ◌>>◌,
}
use ai_governance_orchestrat.Session.Service.Local.{
  fresh, cancel_found, remember_event_id, remember_prompt, forget_prompt, register_cancel,
  cancel_execution,
}
use ai_governance_orchestrat.Session.Service.Rules.{
  Triple, >>=-Triple, >>-Triple, if-Triple, Option-Triple,
}
use ai_governance_orchestrat.Session.Service.Steady.{
  Accounted, Any, Confirms, Creates, Holds, Lasting, IsFair, KeepsKeys, Harmless, SameCore,
  if-SameCore, Steady, pure-Steady, answer-Steady, read-Steady, write-Steady, attempt-Steady,
  append-Steady, append-Adds, deny-Steady, check_switch-Steady, refuse_if-Steady, Confirms-stamp,
  weaken, Any-Lasting, both-Lasting,
}
use ai_governance_orchestrat.Session.Gate.{Config, Orchestrator, HttpRequest}
use ai_governance_orchestrat.Session.Gate.Steady.{
  authorize-Steady, session_id_for-Steady, read_body-Steady, owned-Steady,
}
use ai_governance_orchestrat.Session.Request.{Body}
use ai_governance_orchestrat.Session.Handlers.{
  append_next, check_secrets, routed, serve_message, set_session_status, set_routed, start,
  run_async, publish_event,
}

-- Changes of the process-local state.
pub remember_event_id-Harmless : (id event : String) → Harmless (remember_event_id id event)
unfolding remember_event_id
remember_event_id-Harmless id event s = if-SameCore _ s s _ (refl, refl, refl) (refl, refl, refl)

pub remember_prompt-Harmless :
    (now : ℕ) (id prompt : String) → Harmless (remember_prompt now id prompt)
unfolding remember_prompt
remember_prompt-Harmless now id prompt s = if-SameCore _ s s _ (refl, refl, refl) (refl, refl, refl)

forget_prompt-Harmless : (id : String) → Harmless (forget_prompt id)
unfolding forget_prompt
forget_prompt-Harmless id s = (refl, refl, refl)

pub publish_event-Harmless :
    (now : ℕ) (id type payload : String) → Harmless (publish_event now id type payload)
unfolding publish_event
publish_event-Harmless now id type payload s = (refl, refl, refl)

pub register_cancel-Harmless :
    (now : ℕ) (id : String) (run : ℕ) → Harmless (register_cancel now id run)
unfolding register_cancel
register_cancel-Harmless now id run s = if-SameCore _ s s _ (refl, refl, refl) (refl, refl, refl)

pub cancel_execution-Harmless : (ttl now : ℕ) (id : String) → Harmless (cancel_execution ttl now id)
unfolding cancel_execution
cancel_execution-Harmless ttl now id s =
    if-SameCore (id == "") s s _ (refl, refl, refl) (found (lookup id (fresh ttl now s.cancels)))
  where
    found : (o : Option (ℕ × ℕ)) → SameCore s (cancel_found id s (fresh ttl now s.cancels) o)
    found none = (refl, refl, refl)
    found (some run) = (refl, refl, refl)

-- An execution starts where its confirmation is in the log.
start-Holds :
    (K : List Event → Type 0) (now : ℕ) (x : Execution) (s : Service)
    → Holds (λ log. K log × Any (Confirms x) log) s
    → Holds (λ log. K log × Any (Confirms x) log) (start now x s)
unfolding start
start-Holds K now x s ((xs, ids), (k, confirmed)) =
    let (e1, e2, e3) = register_cancel-Harmless now x.session_id (length s.executions) s in
    rw (e1, e2)
      (
        (All-append (λ y. Any (Confirms y) s.log) s.executions (x ∷ []) xs (confirmed, tt), ids),
        (k, confirmed),
      )

module _ (env : Environment) (fair : (n : ℕ) → IsFair (env.meanwhile n)) (K : List Event → Type 0)
    (lasting : Lasting K) where
  update-Steady :
      (n : ℕ) (id status : String)
      → Steady env fair K lasting (attempt env n λ broken. update_status broken id status)
  unfolding update_status
  update-Steady n id status =
      attempt-Steady env fair K lasting n _
        λ sessions other. change-missing (env.fails n) id _ sessions other

  swap-Steady :
      (n : ℕ) (id from to : String)
      → Steady env fair K lasting
          (attempt env n λ broken. compare_and_swap_status broken id from to)
  swap-Steady n id from to =
      attempt-Steady env fair K lasting n _
        λ sessions other. swap-missing (env.fails n) id from to sessions other

  pub set_session_status-Steady :
      (n : ℕ) (id status : String) → Steady env fair K lasting (set_session_status env n id status)
  unfolding set_session_status
  set_session_status-Steady n id status =
      if-Triple _ (pure-Steady env fair K lasting tt)
        (>>=-Triple (update-Steady n id status) λ problem. pure-Steady env fair K lasting tt)

  set_routed-Steady :
      (n : ℕ) (id agent : String) → Steady env fair K lasting (set_routed env n id agent)
  unfolding set_routed set_routed_agent
  set_routed-Steady n id agent = if-Triple _ (pure-Steady env fair K lasting none) (
      attempt-Steady env fair K lasting n _
        λ sessions other. change-missing (env.fails n) id _ sessions other)

  remember-Steady :
      (n : ℕ) (id event : String)
      → Steady env fair K lasting (write env n (remember_event_id id event))
  remember-Steady n id event =
      write-Steady env fair K lasting n _ (remember_event_id-Harmless id event)

-- A fact on the log, and an event in it.
abbrev pub WithEvent : (List Event → Type 0) → (Event → Type 0) → List Event → Type 0
WithEvent K P log = K log × Any P log

module _ (env : Environment) (fair : (n : ℕ) → IsFair (env.meanwhile n)) (K : List Event → Type 0)
    (lasting : Lasting K) where
  module _ (x : Execution) where
    after-Lasting : Lasting (WithEvent K (Confirms x))
    after-Lasting log e (k, f) = (lasting log e k, Any-Lasting (Confirms x) log e f)

    -- RunAsync, where the log has the confirmation.
    run_async-Steady :
        (n : ℕ) → Steady env fair (WithEvent K (Confirms x)) after-Lasting (run_async env n x)
    unfolding run_async write
    run_async-Steady n =
        >>-Triple
          (set_session_status-Steady env fair (WithEvent K (Confirms x)) after-Lasting n
            x.session_id "running")
          (record {
            ends = λ s h.
                start-Holds K env.now x (env.meanwhile (n + 1) s)
                  (fair (n + 1) (WithEvent K (Confirms x)) after-Lasting s h);
          })

  module _ {Usd : Type 0} (config : Config Usd) (orch : Orchestrator) (request : HttpRequest) where
    append_next-Steady :
        (n : ℕ) (id : String) (event : String → Event)
        → Steady env fair K lasting (append_next config orch env request n id event)
    unfolding append_next
    append_next-Steady n id event =
        >>=-Triple (read-Steady env fair K lasting n _)
          λ parent. append-Steady env fair K lasting (n + 1) (event parent)

    check_secrets-Steady :
        (n : ℕ) (actor prompt why : String)
        → Steady env fair K lasting (check_secrets config orch env request n actor prompt why)
    unfolding check_secrets
    check_secrets-Steady n actor prompt why =
        if-Triple _ (deny-Steady env fair K lasting n _ 403 "secret detected")
          (pure-Steady env fair K lasting tt)

    routed-Steady :
        (id prompt : String) (rec : SessionRecord)
        → Steady env fair K lasting (routed config orch env request id prompt rec)
    unfolding routed
    routed-Steady id prompt rec =
        Option-Triple _ (answer-Steady env fair K lasting 502 "routing failed")
          λ choice. pure-Steady env fair K lasting choice

    pub serve_message-Steady :
        (blank : SessionRecord) (body : Body String)
        → Steady env fair K lasting (serve_message config orch env request blank body)
    unfolding serve_message
    serve_message-Steady blank body =
        >>=-Triple (authorize-Steady env fair K lasting config request 0) λ actor.
          >>=-Triple (session_id_for-Steady env fair K lasting config request "/messages") λ id.
            >>-Triple (check_switch-Steady env fair K lasting 1 config.kill_switch _ "") (
              >>=-Triple (owned-Steady env fair K lasting 3 id actor) λ rec.
                >>-Triple
                  (refuse_if-Steady env fair K lasting _ 409 "session is not awaiting routing")
                  (>>=-Triple (read_body-Steady env fair K lasting body) λ prompt.
                    >>-Triple (refuse_if-Steady env fair K lasting _ 400 "prompt is required") (
                      >>-Triple
                        (check_secrets-Steady 4 actor prompt "secret detected in follow-up message")
                        (>>=-Triple (read-Steady env fair K lasting 5 _) λ again.
                          >>=-Triple (routed-Steady id prompt _) λ choice.
                            >>=-Triple (set_routed-Steady env fair K lasting 6 id choice.0)
                              λ unrouted.
                                >>-Triple
                                  (refuse_if-Steady env fair K lasting _ 500
                                    "routed agent update failed")
                                  (>>=-Triple
                                    (update-Steady env fair K lasting 7 id "awaiting_confirmation")
                                    λ unmoved.
                                      >>-Triple
                                        (refuse_if-Steady env fair K lasting _ 500
                                          "session status update failed")
                                        (>>=-Triple (append_next-Steady 8 id _) λ written.
                                          >>-Triple
                                            (refuse_if-Steady env fair K lasting _ 500
                                              "audit write failed")
                                            (>>-Triple (remember-Steady env fair K lasting 10 id _)
                                              (>>-Triple
                                                (write-Steady env fair K lasting 11 _
                                                  (remember_prompt-Harmless env.now id prompt))
                                                (answer-Steady env fair K lasting 200
                                                  "awaiting_confirmation")))))))))
