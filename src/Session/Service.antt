-- ===== src/Session/Service.antt =====
-- The state of SessionService (ai-agent-orch/internal/governance/sessions.go) and the calls of its
-- handlers. A handler is a sequence of calls, each under its own lock or in its own transaction;
-- the `n`-th call of a request first meets what the other requests and executions have done since
-- the call before it, `meanwhile n`, and fails where `fails n` says so. The metrics counters are left
-- out.
pub mod Local
pub mod Rules
pub mod Steady
pub mod Quiet
pub mod Steps
use ai_governance_orchestrat.Audit.Event.{Event, zero_event, stamp}
use ai_governance_orchestrat.Prelude.Dict.{lookup, insert}
use ai_governance_orchestrat.Prelude.{
  ℕ, ◌+◌, String, Bool, true, false, not, Option, none, some, List, [], ◌∷◌, ◌++◌, ◌==◌,
  if◌then◌else◌,
}
use ai_governance_orchestrat.Session.Record.{Sessions, StoreError}
use ai_governance_orchestrat.Session.KillSwitch.{SwitchState, blocked_by_kill_switch}
use ai_governance_orchestrat.Session.Patch.{PatchBuffer}
use ai_governance_orchestrat.Stream.{EventStore}

-- A runtime that RunAsync has started.
pub record Execution : Type 0 where
  pub session_id : String
  pub agent : String
  pub prompt : String

-- `prompts` and `promptTimes` have the same keys, as `patches` and `patchTimes`, and `cancels` and
-- `cancelTimes`: each pair is one map. A cancel function is the number of its execution, and
-- `cancelled` are those that were called.
pub record Service : Type 0 where
  pub sessions : Sessions
  pub switches : SwitchState
  pub log : List Event
  pub last_event_id : List (String × String)
  pub prompts : List (String × (String × ℕ))
  pub patches : List (String × List (String × ℕ))
  pub buffer : PatchBuffer
  pub cancels : List (String × (ℕ × ℕ))
  pub cancelled : List ℕ
  pub events : EventStore
  pub executions : List Execution

-- What the service does not decide: the time, the ids of a request (`newID` is random), and what
-- its calls meet.
pub record Environment : Type 0 where
  pub now : ℕ
  pub new_id : ℕ → String
  pub fails : ℕ → Bool
  pub meanwhile : ℕ → Service → Service

-- The status code, and the text of the answer's `error` or `status`.
pub record Reply : Type 0 where
  pub code : ℕ
  pub text : String

-- A step of a handler gives a value, or ends the request with an answer.
pub data Ending (A : Type 0) : Type 0 where
  done : A → Ending A
  answered : Reply → Ending A

abbrev pub Handler : Type 0 → Type 0
Handler A = Service → Ending A × Service

module _ {A : Type 0} where
  unfoldable pub pure : A → Handler A
  pure a s = (done a, s)

  unfoldable pub answer : ℕ → String → Handler A
  answer code text s = (answered (record { code = code; text = text }), s)

  unfoldable pub read : Environment → ℕ → (Service → A) → Handler A
  read env n f s = let met = env.meanwhile n s in (done (f met), met)

  -- A call that gives a value and changes the state.
  unfoldable pub exchange : Environment → ℕ → (Service → A × Service) → Handler A
  exchange env n f s = let (a, s') = f (env.meanwhile n s) in (done a, s')

infixl 5 ◌>>=◌ ◌>>◌
unfoldable pub ◌>>=◌ : {A B : Type 0} → Handler A → (A → Handler B) → Handler B
◌>>=◌ m f s =
    let (ending, s') = m s in elim ending [ done a ↦ f a s' | answered r ↦ (answered r, s') ]

unfoldable pub ◌>>◌ : {B : Type 0} → Handler (Unit {0}) → Handler B → Handler B
m >> k = m >>= λ _. k

unfoldable pub write : Environment → ℕ → (Service → Service) → Handler (Unit {0})
write env n f s = (done tt, f (env.meanwhile n s))

-- An early return under a condition.
unfoldable pub refuse_if : Bool → ℕ → String → Handler (Unit {0})
refuse_if bad code text = if bad then answer code text else pure tt

-- A call of the session store.
unfoldable pub attempt :
    Environment → ℕ → (Bool → Sessions → Option StoreError × Sessions) → Handler (Option StoreError)
attempt env n call s =
    let met = env.meanwhile n s in
    let (problem, sessions) = call (env.fails n) met.sessions in
    (done problem, record met { sessions = sessions })

-- `audit.Append`: whether the event was written. The store sets a time that is missing.
unfoldable pub append : Environment → ℕ → Event → Handler Bool
append env n event s =
    let met = env.meanwhile n s in
    if env.fails n
    then (done false, met)
    else (done true, record met { log = met.log ++ stamp env.now event ∷ [] })

-- The event of appendDenied.
unfoldable pub denied_event : String → String → String → List String → String → Event
denied_event id actor reason findings classification = record zero_event {
  event_id = id;
  event_type = "session.denied";
  actor = actor;
  classification = classification;
  reason = reason;
  findings = findings;
  correlation_subject = "governance-shell";
}

-- appendDenied and the answer that follows it in every handler.
unfoldable pub deny : {A : Type 0} → Environment → ℕ → Event → ℕ → String → Handler A
deny env n event code text = do
  written ← append env n event
  if written then answer code text else answer 500 "audit write failed"

-- The test of the kill switch before an operation, which takes the calls n and n + 1.
unfoldable pub check_switch :
    Environment → ℕ → Bool → (String → Event) → String → Handler (Unit {0})
check_switch env n always denied agent = do
  blocked ← read env n λ s. blocked_by_kill_switch always s.switches agent
  elim blocked [ none ↦ pure tt | some reason ↦ deny env (n + 1) (denied reason) 423 reason ]
