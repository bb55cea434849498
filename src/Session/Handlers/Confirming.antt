-- ===== src/Session/Handlers/Confirming.antt =====
-- A confirmation that nothing stands in the way of (governance/confirm.go).
use ai_governance_orchestrat.Audit.Event.{Event, stamp}
use ai_governance_orchestrat.Prelude.Dict.{lookup, insert, lookup-insert_self}
use ai_governance_orchestrat.Prelude.Text.{codes, contains}
use ai_governance_orchestrat.Prelude.{
  ℕ, String, Bool, true, false, not, ◌||◌, ◌&&◌, Option, none, some, [], ◌∷◌, ◌++◌, ◌==◌, eq_iff,
  ◌≡◌, ◌≢◌, refl, sym, length, ◌∙◌, ap, if◌then◌else◌,
}
use ai_governance_orchestrat.Session.Auth.{subject, require_authorized_request, actor_from_context}
use ai_governance_orchestrat.Session.Gate.{
  Config, Orchestrator, HttpRequest, admit, authorize, session_id_for, read_body, check_owner,
  owned,
}
use ai_governance_orchestrat.Session.KillSwitch.{blocked_by_kill_switch}
use ai_governance_orchestrat.Session.Record.Laws.{
  compare_and_swap_status-swaps, update_status-found,
}
use ai_governance_orchestrat.Session.Record.{
  SessionRecord, Sessions, StoreError, get, with_status, update_status, compare_and_swap_status,
}
use ai_governance_orchestrat.Session.Request.{decoded, extract_session_id}
use ai_governance_orchestrat.Session.Service.{
  Service, Environment, Execution, done, answered, pure, answer, read, write, ◌>>=◌, attempt,
  append, check_switch,
}
use ai_governance_orchestrat.Session.Service.Steps.{>>=-done, >>-done, refuse_if-done, alone}
use ai_governance_orchestrat.Session.Service.Local.{
  prompt_for_session, parent_event_id, remember_event_id, forget_prompt,
}
use ai_governance_orchestrat.Session.Handlers.Fair.{
  remember_event_id-Harmless, register_cancel-Harmless,
}
use ai_governance_orchestrat.Session.Handlers.{
  serve_confirm, accepted, unconfirmed, confirmed, confirmation, run_async, start,
  set_session_status,
}

some_or_none : {A : Type 0} {a : A} → some a ≢ none
some_or_none e = cc

or_left : (a b : Bool) → (a || b) ≡ false → a ≡ false
or_left true b e = e
or_left false b e = refl

module _ (now : ℕ) (ids : ℕ → String) {Usd : Type 0} (config : Config Usd) (orch : Orchestrator)
    (request : HttpRequest) (name agent prompt : String) (rec : SessionRecord) (s : Service) where
  abbrev env : Environment
  env = alone now ids

  abbrev pub confirm_id : String
  confirm_id = extract_session_id request.path "/v1/sessions/" "/confirm"

  -- What a confirmation asks of the service.
  abbrev pub Ready : Type 0
  Ready =
      (request.method ≡ "POST")
      × (require_authorized_request config.auth request.credentials ≡ subject name)
      × (((confirm_id == "") || contains (codes confirm_id) (codes "/")) ≡ false)
      × ((agent == "") ≡ false)
      × (blocked_by_kill_switch config.kill_switch s.switches agent ≡ none)
      × (prompt_for_session config.local_state_ttl now confirm_id s ≡ some prompt)
      × (lookup confirm_id s.sessions ≡ some rec)
      × (rec.actor_subject ≡ actor_from_context name)
      × ((not (rec.routed_agent == "") && not (rec.routed_agent == agent)) ≡ false)
      × (rec.status ≡ "awaiting_confirmation")
      × (orch.accept confirm_id agent ≡ true)

  swapped_service : Service
  swapped_service = record s {
    sessions = insert confirm_id (with_status "confirming" rec) s.sessions;
  }

  authorize-done :
      request.method ≡ "POST"
      → require_authorized_request config.auth request.credentials ≡ subject name
      → authorize config env request 0 s ≡ (done (actor_from_context name), s)
  unfolding authorize admit pure
  authorize-done post who =
      >>-done _ _ s s
        (refuse_if-done _ 405 "method not allowed" s (ap (λ t. not (t == "POST")) post))
      ∙ ap (λ o. admit config env request 0 o s) who

  session_id_for-done :
      ((confirm_id == "") || contains (codes confirm_id) (codes "/")) ≡ false
      → session_id_for config env request "/confirm" s ≡ (done confirm_id, s)
  unfolding session_id_for pure
  session_id_for-done path =
      >>-done _ _ s s (refuse_if-done _ 400 "valid session ID is required" s path)

  check_switch-done :
      (denied : String → Event)
      → blocked_by_kill_switch config.kill_switch s.switches agent ≡ none
      → check_switch env 1 config.kill_switch denied agent s ≡ (done tt, s)
  unfolding check_switch read pure
  check_switch-done denied unblocked = >>=-done _ _ s s none (ap (λ o. (done o, s)) unblocked)

  owned-done :
      lookup confirm_id s.sessions ≡ some rec
      → rec.actor_subject ≡ actor_from_context name
      → owned env 4 confirm_id (actor_from_context name) s ≡ (done rec, s)
  unfolding owned read get check_owner pure
  owned-done stored owner =
      >>=-done _ _ s s (some rec) (ap (λ o. (done o, s)) stored)
      ∙ ap (λ b. (if b then pure rec else answer 403 "session ownership mismatch") s)
          ((eq_iff rec.actor_subject (actor_from_context name)).1 owner)

  swap-done :
      lookup confirm_id s.sessions ≡ some rec
      → rec.status ≡ "awaiting_confirmation"
      → attempt env 5
          (λ broken. compare_and_swap_status broken confirm_id "awaiting_confirmation" "confirming")
          s
        ≡ (done none, swapped_service)
  unfolding attempt swapped_service
  swap-done stored waiting =
      ap (λ (r : Option StoreError × Sessions). (done r.0, record s { sessions = r.1 }))
        (compare_and_swap_status-swaps confirm_id "awaiting_confirmation" "confirming" rec
          s.sessions stored waiting)

  ready-accepted :
      Ready
      → serve_confirm config orch env request (decoded agent) s
        ≡ accepted config orch env request confirm_id
            (actor_from_context name)
            agent
            prompt
            swapped_service
  unfolding serve_confirm read_body pure read
  ready-accepted (post, who, path, given, unblocked, kept, stored, owner, fits, waiting, taken) =
      let actor = actor_from_context name in
      >>=-done _ _ s s actor (authorize-done post who)
      ∙ >>=-done _ _ s s confirm_id (session_id_for-done path)
      ∙ >>=-done _ _ s s agent refl
      ∙ >>-done _ _ s s (refuse_if-done _ 400 "agent is required" s given)
      ∙ >>-done _ _ s s (check_switch-done _ unblocked)
      ∙ >>=-done _ _ s s (some prompt) (ap (λ o. (done o, s)) kept)
      ∙ >>=-done _ _ s s prompt refl
      ∙ >>=-done _ _ s s rec (owned-done stored owner)
      ∙ >>-done _ _ s s
          (refuse_if-done _ 409 "confirmed agent does not match routed specialist" s fits)
      ∙ >>=-done _ _ s swapped_service none (swap-done stored waiting)
      ∙ >>-done _ _ swapped_service swapped_service
          (refuse_if-done _ 409 "session state transition failed" swapped_service refl)
      ∙ ap
          (λ b.
            (if b
                then accepted config orch env request confirm_id actor agent prompt
                else unconfirmed config orch env request confirm_id 502
                    "orchestrator accept failed")
              swapped_service)
          taken

  abbrev pub confirmed_run : Execution
  confirmed_run = record { session_id = confirm_id; agent = agent; prompt = prompt }

  -- The audit event of the confirmation.
  abbrev pub confirm_event : Event
  confirm_event = stamp now (
      confirmation config orch env request "session.confirmed" confirm_id (actor_from_context name)
        agent (parent_event_id confirm_id s))

  -- The states that a confirmation goes through.
  logged_service : Service
  unfolding swapped_service
  logged_service = record swapped_service { log = s.log ++ confirm_event ∷ [] }

  noted_service : Service
  noted_service = remember_event_id confirm_id (ids 1) logged_service

  confirmed_service : Service
  confirmed_service = record noted_service {
    sessions =
        insert confirm_id (with_status "confirmed" (with_status "confirming" rec))
          noted_service.sessions;
  }

  running_service : Service
  running_service =
      let forgotten = forget_prompt confirm_id confirmed_service in
      record forgotten {
        sessions = (update_status false confirm_id "running" forgotten.sessions).1;
      }

  noted_stored : lookup confirm_id noted_service.sessions ≡ some (with_status "confirming" rec)
  unfolding noted_service logged_service swapped_service
  noted_stored =
      ap (lookup confirm_id) (remember_event_id-Harmless confirm_id (ids 1) logged_service).0
      ∙ lookup-insert_self confirm_id (with_status "confirming" rec) s.sessions

  run_async-done :
      ((confirm_id == "") || contains (codes confirm_id) (codes "/")) ≡ false
      → run_async env 12 confirmed_run (forget_prompt confirm_id confirmed_service)
        ≡ (done tt, start now confirmed_run running_service)
  unfolding run_async set_session_status attempt write running_service pure
  run_async-done path = >>-done _ _ (forget_prompt confirm_id confirmed_service) running_service (
      ap
        (λ b.
          (if b || false
              then pure tt
              else (attempt env 12 (λ broken. update_status broken confirm_id "running")
                  >>= λ problem. pure tt))
            (forget_prompt confirm_id confirmed_service))
        (or_left (confirm_id == "") _ path)
      ∙ >>=-done _ _ (forget_prompt confirm_id confirmed_service) running_service _ refl)

  accepted-done :
      ((confirm_id == "") || contains (codes confirm_id) (codes "/")) ≡ false
      → accepted config orch env request confirm_id
          (actor_from_context name)
          agent
          prompt
          swapped_service
        ≡ (
          answered (record { code = 200; text = "confirmed" }),
          start now confirmed_run running_service,
        )
  unfolding accepted confirmed read append write attempt answer swapped_service logged_service
      noted_service confirmed_service parent_event_id
  accepted-done path =
      >>=-done _ _ swapped_service swapped_service (parent_event_id confirm_id swapped_service) refl
      ∙ >>=-done _ _ swapped_service logged_service true refl
      ∙ >>-done _ _ logged_service noted_service refl
      ∙ >>=-done _ _ noted_service confirmed_service none (
          ap
            (λ (r : Option StoreError × Sessions).
              (done r.0, record noted_service { sessions = r.1 }))
            (compare_and_swap_status-swaps confirm_id "confirming" "confirmed"
              (with_status "confirming" rec) noted_service.sessions noted_stored refl))
      ∙ >>-done _ _ confirmed_service confirmed_service
          (refuse_if-done _ 409 "session state transition failed" confirmed_service refl)
      ∙ >>-done _ _ confirmed_service (forget_prompt confirm_id confirmed_service) refl
      ∙ >>-done _ _ (forget_prompt confirm_id confirmed_service)
          (start now confirmed_run running_service) (run_async-done path)

  running_stored :
      (final : SessionRecord) × (lookup confirm_id running_service.sessions ≡ some final)
      × (final.status ≡ "running")
  unfolding running_service confirmed_service forget_prompt
  running_stored =
      let stored =
        lookup-insert_self confirm_id (with_status "confirmed" (with_status "confirming" rec))
          noted_service.sessions in
      update_status-found confirm_id "running" confirmed_service.sessions
        (λ missing. some_or_none (sym stored ∙ missing))

  running_core :
      (running_service.executions ≡ s.executions)
      × (running_service.log ≡ s.log ++ confirm_event ∷ [])
  unfolding running_service confirmed_service forget_prompt noted_service logged_service
      swapped_service
  running_core =
      let (e1, e2, e3) = remember_event_id-Harmless confirm_id (ids 1) logged_service in (e3, e2)

  -- Where nothing stands in its way, a confirmation is answered with 200, its event is logged, and the
  -- execution of the kept prompt is started with the session running.
  pub serve_confirm-ready :
      Ready
      → let (ending, after) = serve_confirm config orch env request (decoded agent) s in
        (ending ≡ answered (record { code = 200; text = "confirmed" }))
        × (after.executions ≡ s.executions ++ confirmed_run ∷ [])
        × (after.log ≡ s.log ++ confirm_event ∷ [])
        × ((final : SessionRecord) × (lookup confirm_id after.sessions ≡ some final)
            × (final.status ≡ "running"))
  unfolding start
  serve_confirm-ready ready =
      let (e1, e2, e3) =
        register_cancel-Harmless now confirm_id (length running_service.executions)
          running_service in
      let (executions, log) = running_core in
      let (final, stored, status) = running_stored in
      rw (ready-accepted ready ∙ accepted-done ready.2) (
        refl,
        ap (λ xs. xs ++ confirmed_run ∷ []) executions,
        e2 ∙ log,
        (final, ap (lookup confirm_id) e1 ∙ stored, status),
      )
