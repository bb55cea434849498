-- ===== src/Session/Execution/Fair.antt =====
-- An execution (governance/execution.go) among the requests.
use ai_governance_orchestrat.Audit.Event.{Event}
use ai_governance_orchestrat.Prelude.{ℕ, ◌+◌, String, Option, none, some, List, [], ◌∷◌, refl}
use ai_governance_orchestrat.Session.Gate.{Config}
use ai_governance_orchestrat.Session.Patch.{PatchEnvelope, Sanitized, safe, failed}
use ai_governance_orchestrat.Session.Record.{set_runtime_gateway_token_hash}
use ai_governance_orchestrat.Session.Record.Laws.{change-missing}
use ai_governance_orchestrat.Session.Service.{Environment, Execution, Handler, write}
use ai_governance_orchestrat.Session.Service.Local.{remember_patch}
use ai_governance_orchestrat.Session.Service.Rules.{>>=-Triple, >>-Triple, if-Triple}
use ai_governance_orchestrat.Session.Service.Steady.{
  Lasting, IsFair, Harmless, if-SameCore, Steady, pure-Steady, write-Steady, exchange-Steady,
  attempt-Steady, append-Steady,
}
use ai_governance_orchestrat.Session.Handlers.{publish_event}
use ai_governance_orchestrat.Session.Handlers.Fair.{
  set_session_status-Steady, publish_event-Harmless, cancel_execution-Harmless,
}
use ai_governance_orchestrat.Session.Execution.{
  RuntimeEvent, DispatchResult, Runtime, Tally, note, publish_error, stop_run, note_proposed,
  handle_patch, note_permission, note_file_write, handle_event, take_event, take_events,
  unless_stopped, finish_run, dispatched, mint_token, run_execution,
}

remember_patch-Harmless :
    (now : ℕ) (id patch_id : String) → Harmless (remember_patch now id patch_id)
unfolding remember_patch
remember_patch-Harmless now id patch_id s =
    if-SameCore _ s s _ (refl, refl, refl) (refl, refl, refl)

module _ (env : Environment) (fair : (n : ℕ) → IsFair (env.meanwhile n)) (K : List Event → Type 0)
    (lasting : Lasting K) {Usd : Type 0} (config : Config Usd) (runtime : Runtime)
    (x : Execution) where
  abbrev Kept : {A : Type 0} → Handler A → Type 0
  Kept m = Steady env fair K lasting m

  note-Steady : (n : ℕ) (e : Event) → Kept (note config runtime env x n e)
  unfolding note
  note-Steady n e =
      >>=-Triple (append-Steady env fair K lasting n e) λ written. pure-Steady env fair K lasting tt

  publish-Steady :
      (n : ℕ) (type payload : String)
      → Kept (write env n (publish_event env.now x.session_id type payload))
  publish-Steady n type payload =
      write-Steady env fair K lasting n _ (publish_event-Harmless env.now x.session_id type payload)

  publish_error-Steady :
      (n : ℕ) (reason : String) → Kept (publish_error config runtime env x n reason)
  unfolding publish_error
  publish_error-Steady n reason =
      >>-Triple (publish-Steady n "error" reason)
        (write-Steady env fair K lasting (n + 1) _ λ s. (refl, refl, refl))

  stop_run-Steady :
      (n : ℕ) (type reason : String) → Kept (stop_run config runtime env x n type reason)
  unfolding stop_run
  stop_run-Steady n type reason = >>-Triple (note-Steady n _) (
      >>-Triple (set_session_status-Steady env fair K lasting (n + 1) x.session_id "failed")
        (>>-Triple (publish_error-Steady (n + 2) reason) (pure-Steady env fair K lasting none)))

  note_proposed-Steady :
      (n : ℕ) (o : Option PatchEnvelope) → Kept (note_proposed config runtime env x n o)
  unfolding note_proposed
  note_proposed-Steady n none = pure-Steady env fair K lasting tt
  note_proposed-Steady n (some envelope) = note-Steady n _

  handle_patch-Steady :
      (n : ℕ) (tally : Tally) (r : Sanitized) → Kept (handle_patch config runtime env x n tally r)
  unfolding handle_patch
  handle_patch-Steady n tally (failed problem) = stop_run-Steady n "patch.rejected" _
  handle_patch-Steady n tally (safe shown) =
      >>-Triple
        (write-Steady env fair K lasting n _ (remember_patch-Harmless env.now x.session_id _))
        (>>-Triple (note_proposed-Steady (n + 1) _)
          (>>-Triple (publish-Steady (n + 2) "patch" shown) (pure-Steady env fair K lasting _)))

  note_permission-Steady :
      (n : ℕ) (payload : String) → Kept (note_permission config runtime env x n payload)
  unfolding note_permission
  note_permission-Steady n payload = note-Steady n _

  note_file_write-Steady :
      (n : ℕ) (payload : String) → Kept (note_file_write config runtime env x n payload)
  unfolding note_file_write
  note_file_write-Steady n payload = note-Steady n _

  handle_event-Steady :
      (n : ℕ) (tally : Tally) (event : RuntimeEvent)
      → Kept (handle_event config runtime env x n tally event)
  unfolding handle_event
  handle_event-Steady n tally event =
      let kept = pure-Steady env fair K lasting (some tally) in
      if-Triple _
        (>>=-Triple (exchange-Steady env fair K lasting n _ λ s. (refl, refl, refl))
          λ r. handle_patch-Steady (n + 1) tally r)
        (if-Triple _ (>>-Triple (publish-Steady n "stream" _) kept) (
          if-Triple _ (>>-Triple (note_permission-Steady n event.payload) kept) (
            if-Triple _ (>>-Triple (note_file_write-Steady n event.payload) kept) (
              if-Triple _ (>>-Triple (publish-Steady n "tool_request" event.payload) kept)
                (>>-Triple (publish-Steady n event.type event.payload) kept)))))

  take_event-Steady :
      (n : ℕ) (tally : Tally) (event : RuntimeEvent)
      → Kept (take_event config runtime env x n tally event)
  unfolding take_event
  take_event-Steady n tally event =
      if-Triple _ (stop_run-Steady n "runtime.denied" "consecutive tool call cap exceeded")
        (handle_event-Steady n _ event)

  unless_stopped-Steady :
      (rest : Tally → Handler (Option Tally)) (o : Option Tally)
      → ((tally : Tally) → Kept (rest tally))
      → Kept (unless_stopped config runtime env x rest o)
  unfolding unless_stopped
  unless_stopped-Steady rest none h = pure-Steady env fair K lasting none
  unless_stopped-Steady rest (some tally) h = h tally

  take_events-Steady :
      (n : ℕ) (events : List RuntimeEvent) (tally : Tally)
      → Kept (take_events config runtime env x n events tally)
  unfolding take_events
  take_events-Steady n [] tally = pure-Steady env fair K lasting (some tally)
  take_events-Steady n (event ∷ events) tally =
      >>=-Triple (take_event-Steady n tally event)
        λ o. unless_stopped-Steady _ o (take_events-Steady (n + 5) events)

  finish_run-Steady :
      (agent : String) (o : Option Tally) → Kept (finish_run config runtime env x agent o)
  unfolding finish_run
  finish_run-Steady agent none = pure-Steady env fair K lasting tt
  finish_run-Steady agent (some tally) = >>-Triple (publish-Steady 6 "done" _) (
      >>-Triple (write-Steady env fair K lasting 7 _ λ s. (refl, refl, refl)) (
        >>-Triple (set_session_status-Steady env fair K lasting 8 x.session_id "done")
          (note-Steady 9 _)))

  dispatched-Steady : (o : Option DispatchResult) → Kept (dispatched config runtime env x o)
  unfolding dispatched
  dispatched-Steady none =
      >>-Triple (set_session_status-Steady env fair K lasting 4 x.session_id "failed")
        (>>-Triple (note-Steady 5 _) (publish_error-Steady 6 "dispatch failed"))
  dispatched-Steady (some result) =
      >>=-Triple (take_events-Steady 12 result.events _)
        λ ended. finish_run-Steady result.agent ended

  mint_token-Steady : Kept (mint_token config runtime env x)
  unfolding mint_token set_runtime_gateway_token_hash
  mint_token-Steady =
      >>=-Triple
        (attempt-Steady env fair K lasting 2 _
          λ sessions other. change-missing (env.fails 2) x.session_id _ sessions other)
        λ problem. pure-Steady env fair K lasting _

  pub run_execution-Steady : Kept (run_execution config runtime env x)
  unfolding run_execution
  run_execution-Steady = >>-Triple (publish-Steady 0 "stream" _) (
      >>-Triple (note-Steady 1 _) (
        >>=-Triple mint_token-Steady λ token.
          >>-Triple (dispatched-Steady (runtime.dispatch x token)) (
            write-Steady env fair K lasting 11 _
              (cancel_execution-Harmless config.local_state_ttl env.now x.session_id))))
