-- ===== src/Session/Execution/Final.antt =====
-- The status that a failed dispatch leaves (governance/execution.go).
use ai_governance_orchestrat.Audit.Event.{Event}
use ai_governance_orchestrat.Prelude.Dict.{lookup, lookup-insert}
use ai_governance_orchestrat.Prelude.{
  ℕ, ◌+◌, String, Bool, true, false, Option, none, some, List, ◌==◌, ◌≡◌, ◌≢◌, refl, eq_iff,
  if◌then◌else◌, Bool-cases, inl, inr,
}
use ai_governance_orchestrat.Session.Gate.{Config}
use ai_governance_orchestrat.Session.Handlers.{set_session_status, is_turn_eligible_status}
use ai_governance_orchestrat.Session.Handlers.Fair.{
  publish_event-Harmless, cancel_execution-Harmless,
}
use ai_governance_orchestrat.Session.Record.Laws.{update_status-found}
use ai_governance_orchestrat.Session.Record.{
  SessionRecord, Sessions, change, change_row, set_runtime_gateway_token_hash,
}
use ai_governance_orchestrat.Session.Service.{
  Service, Environment, Execution, Reply, Ending, done, answered, attempt,
}
use ai_governance_orchestrat.Session.Service.Rules.{Ends, Triple, >>=-Triple, >>-Triple}
use ai_governance_orchestrat.Session.Service.Quiet.{
  IsQuiet, On, pure-Keeps, write-Keeps, append-Keeps,
}
use ai_governance_orchestrat.Session.Execution.{
  Runtime, note, publish_error, dispatched, mint_token, run_execution,
}

-- A changed session is still stored.
change-found :
    (broken : Bool) (id : String) (f : SessionRecord → SessionRecord) (sessions : Sessions)
    (other : String)
    → lookup other sessions ≢ none
    → lookup other (change broken id f sessions).1 ≢ none
unfolding change
change-found true id f sessions other found = found
change-found false id f sessions other found = by_row (lookup id sessions)
  where
    by_row : (o : Option SessionRecord) → lookup other (change_row id f sessions o).1 ≢ none
    by_row none = found
    by_row (some rec) =
        rw lookup-insert
          (elim (id == other) as (λ b. (if b then some (f rec) else lookup other sessions) ≢ none) [
            | true ↦ (λ e. cc)
            | false ↦ found
          ])

turn_eligible : is_turn_eligible_status "failed" ≡ true
unfolding is_turn_eligible_status
turn_eligible = refl

module _ (env : Environment) (quiet : IsQuiet env) {Usd : Type 0} (config : Config Usd)
    (runtime : Runtime) (x : Execution) where
  abbrev Stored : Sessions → List Execution → Type 0
  Stored ss xs = lookup x.session_id ss ≢ none

  abbrev Failed : Sessions → List Execution → Type 0
  Failed ss xs =
      (rec : SessionRecord) × (lookup x.session_id ss ≡ some rec) × (rec.status ≡ "failed")

  module _ (P : Sessions → List Execution → Type 0) where
    note-Keeps :
        {R : Reply → Service → Type 0} (n : ℕ) (e : Event)
        → Triple (On P) (note config runtime env x n e) (λ _. On P) R
    unfolding note
    note-Keeps n e = >>=-Triple (append-Keeps env quiet P n e) λ written. pure-Keeps env quiet P tt

    publish_error-Keeps :
        {R : Reply → Service → Type 0} (n : ℕ) (reason : String)
        → Triple (On P) (publish_error config runtime env x n reason) (λ _. On P) R
    unfolding publish_error
    publish_error-Keeps n reason =
        >>-Triple
          (write-Keeps env quiet P n _ (publish_event-Harmless env.now x.session_id "error" reason))
          (write-Keeps env quiet P (n + 1) _ λ s. (refl, refl, refl))

  mint_token-Keeps :
      {R : Reply → Service → Type 0}
      → Triple (On Stored) (mint_token config runtime env x) (λ _. On Stored) R
  unfolding mint_token attempt set_runtime_gateway_token_hash
  mint_token-Keeps =
      >>=-Triple {Q = λ _. On Stored}
        (record {
          ends = λ s h.
              rw (quiet 2 s) (change-found (env.fails 2) x.session_id _ s.sessions x.session_id h);
        })
        λ problem. pure-Keeps env quiet Stored _

  failed :
      x.session_id ≢ ""
      → env.fails 4 ≡ false
      → Triple
          (On Stored)
          (set_session_status env 4 x.session_id "failed")
          (λ _. On Failed)
          (λ _. On Failed)
  unfolding set_session_status attempt
  failed named working = elim (Bool-cases (x.session_id == "")) [
    | inl empty ↦ absurd (named ((eq_iff x.session_id "").0 empty))
    | inr given ↦ rw given (
        >>=-Triple {Q = λ _. On Failed}
          (record {
            ends = λ s h.
                rw (quiet 4 s, working) (update_status-found x.session_id "failed" s.sessions h);
          })
          λ problem. pure-Keeps env quiet Failed tt)
  ]

  dispatched-Failed :
      x.session_id ≢ ""
      → env.fails 4 ≡ false
      → Triple (On Stored) (dispatched config runtime env x none) (λ _. On Failed) (λ _. On Failed)
  unfolding dispatched
  dispatched-Failed named working =
      >>-Triple (failed named working)
        (>>-Triple (note-Keeps Failed 5 _) (publish_error-Keeps Failed 6 "dispatch failed"))

  run-Failed :
      x.session_id ≢ ""
      → env.fails 4 ≡ false
      → ((token : String) → runtime.dispatch x token ≡ none)
      → Triple (On Stored) (run_execution config runtime env x) (λ _. On Failed) (λ _. On Failed)
  unfolding run_execution
  run-Failed named working undispatched =
      >>-Triple
        (write-Keeps env quiet Stored 0 _ (publish_event-Harmless env.now x.session_id "stream" _))
        (>>-Triple (note-Keeps Stored 1 _) (
          >>=-Triple mint_token-Keeps λ token. rw (undispatched token) (
            >>-Triple (dispatched-Failed named working) (
              write-Keeps env quiet Failed 11 _
                (cancel_execution-Harmless config.local_state_ttl env.now x.session_id)))))

  -- A run whose dispatch fails leaves its session with the status "failed", from which a turn may
  -- follow, whatever status it had before: also where it was aborted. Nothing else runs meanwhile,
  -- and the update of the status does not fail.
  pub run_execution-failed :
      (s : Service)
      → x.session_id ≢ ""
      → env.fails 4 ≡ false
      → ((token : String) → runtime.dispatch x token ≡ none)
      → lookup x.session_id s.sessions ≢ none
      → (rec : SessionRecord) × (lookup x.session_id
            (run_execution config runtime env x s).1.sessions
          ≡ some rec)
        × (rec.status ≡ "failed")
        × (is_turn_eligible_status rec.status ≡ true)
  run_execution-failed s named working undispatched stored =
      at_end (run_execution config runtime env x s)
        ((run-Failed named working undispatched).ends s stored)
    where
      eligible : (status : String) → status ≡ "failed" → is_turn_eligible_status status ≡ true
      eligible status e = rw e turn_eligible

      at_end :
          (e : Ending (Unit {0}) × Service)
          → Ends (λ _. On Failed) (λ _. On Failed) e
          → (rec : SessionRecord) × (lookup x.session_id e.1.sessions ≡ some rec)
            × (rec.status ≡ "failed")
            × (is_turn_eligible_status rec.status ≡ true)
      at_end (done a, s') (rec, e, f) = (rec, e, f, eligible rec.status f)
      at_end (answered r, s') (rec, e, f) = (rec, e, f, eligible rec.status f)
