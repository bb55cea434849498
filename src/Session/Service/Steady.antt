-- ===== src/Session/Service/Steady.antt =====
-- What the audit log of a SessionService (governance/sessions.go) accounts for, and the calls that
-- keep it so while other requests run.
use ai_governance_orchestrat.Audit.Event.{Event, stamp}
use ai_governance_orchestrat.Prelude.Dict.{lookup}
use ai_governance_orchestrat.Prelude.{
  ℕ, ◌+◌, String, Bool, true, false, Option, none, List, [], ◌∷◌, ◌++◌, ◌≡◌, ◌≢◌, ◌⊎◌, inl, inr,
  All, if◌then◌else◌, nat_eq,
}
use ai_governance_orchestrat.Session.Record.{Sessions, StoreError}
use ai_governance_orchestrat.Session.Service.{
  Service, Execution, Environment, Ending, done, answered, Handler, pure, answer, read, write,
  exchange, ◌>>=◌, refuse_if, attempt, append, deny, check_switch,
}
use ai_governance_orchestrat.Session.Service.Rules.{
  Ends, Triple, >>=-Triple, if-Triple, Option-Triple,
}

abbrev pub Any : (Event → Type 0) → List Event → Type 0
Any P [] = ⊥
Any P (e ∷ log) = P e ⊎ Any P log

-- The event that confirms an execution, by the owner of its session.
abbrev pub Confirms : Execution → Event → Type 0
Confirms x e =
    (e.session_id ≡ x.session_id)
    × (e.agent ≡ x.agent)
    × ((e.event_type ≡ "session.confirmed") ⊎ (e.event_type ≡ "session.turn.confirmed"))

abbrev pub Creates : String → Event → Type 0
Creates id e = (e.session_id ≡ id) × (e.event_type ≡ "session.created")

-- Every execution that was started has its confirmation in the audit log, and every session that
-- is stored has its creation there.
abbrev pub Accounted : Service → Type 0
Accounted s =
    All (λ x. Any (Confirms x) s.log) s.executions
    × ((id : String) → lookup id s.sessions ≢ none → Any (Creates id) s.log)

-- Facts on the log that a longer log keeps.
abbrev pub Lasting : (List Event → Type 0) → Type 0
Lasting K = (log : List Event) (e : Event) → K log → K (log ++ e ∷ [])

abbrev pub Holds : (List Event → Type 0) → Service → Type 0
Holds K s = Accounted s × K s.log

-- A change of the service that keeps it accounted, and the lasting facts on its log.
abbrev pub IsFair : (Service → Service) → Type 1
IsFair f = (K : List Event → Type 0) → Lasting K → (s : Service) → Holds K s → Holds K (f s)

pub Any-Lasting : (P : Event → Type 0) → Lasting (Any P)
Any-Lasting P [] e k = elim k [ ]
Any-Lasting P (x ∷ log) e (inl here) = inl here
Any-Lasting P (x ∷ log) e (inr later) = inr (Any-Lasting P log e later)

pub Any-last : (P : Event → Type 0) (log : List Event) (e : Event) → P e → Any P (log ++ e ∷ [])
Any-last P [] e p = inl p
Any-last P (x ∷ log) e p = inr (Any-last P log e p)

All-Lasting : (xs : List Execution) → Lasting (λ log. All (λ x. Any (Confirms x) log) xs)
All-Lasting [] log e k = tt
All-Lasting (x ∷ xs) log e k = (Any-Lasting (Confirms x) log e k.0, All-Lasting xs log e k.1)

-- A call of the session store that stores no session it did not find.
abbrev pub KeepsKeys : (Sessions → Option StoreError × Sessions) → Type 0
KeepsKeys call =
    (sessions : Sessions) (id : String)
    → lookup id sessions ≡ none
    → lookup id (call sessions).1 ≡ none

-- The same sessions, log and executions.
abbrev pub SameCore : Service → Service → Type 0
SameCore s s' = (s'.sessions ≡ s.sessions) × (s'.log ≡ s.log) × (s'.executions ≡ s.executions)

-- A change of the service that concerns neither the sessions, the log nor the executions.
abbrev pub Harmless : (Service → Service) → Type 0
Harmless f = (s : Service) → SameCore s (f s)

pub if-SameCore :
    (b : Bool) (s yes_s no_s : Service)
    → SameCore s yes_s
    → SameCore s no_s
    → SameCore s (if b then yes_s else no_s)
if-SameCore true s yes_s no_s first second = first
if-SameCore false s yes_s no_s first second = second

module _ (env : Environment) (fair : (n : ℕ) → IsFair (env.meanwhile n)) (K : List Event → Type 0)
    (lasting : Lasting K) where
  abbrev pub Steady : {A : Type 0} → Handler A → Type 0
  Steady m = Triple (Holds K) m (λ _. Holds K) (λ _. Holds K)

  pub pure-Steady : {A : Type 0} (a : A) → Steady (pure a)
  unfolding pure
  pure-Steady a = record { ends = λ s h. h }

  pub answer-Steady : {A : Type 0} (code : ℕ) (text : String) → Steady (answer {A = A} code text)
  unfolding answer
  answer-Steady code text = record { ends = λ s h. h }

  pub read-Steady : {A : Type 0} (n : ℕ) (f : Service → A) → Steady (read env n f)
  unfolding read
  read-Steady n f = record { ends = λ s h. fair n K lasting s h }

  pub write-Steady : (n : ℕ) (f : Service → Service) → Harmless f → Steady (write env n f)
  unfolding write
  write-Steady n f harmless = record {
    ends = λ s h. unharmed (env.meanwhile n s) (fair n K lasting s h);
  }
    where
      unharmed : (met : Service) → Holds K met → Holds K (f met)
      unharmed met h = let (e1, e2, e3) = harmless met in rw (e1, e2, e3) h

  pub exchange-Steady :
      {A : Type 0} (n : ℕ) (f : Service → A × Service)
      → Harmless (λ s. (f s).1)
      → Steady (exchange env n f)
  unfolding exchange
  exchange-Steady n f harmless = record {
    ends = λ s h.
        let (e1, e2, e3) = harmless (env.meanwhile n s) in rw (e1, e2, e3) (fair n K lasting s h);
  }

  pub attempt-Steady :
      (n : ℕ) (call : Bool → Sessions → Option StoreError × Sessions)
      → KeepsKeys (call (env.fails n))
      → Steady (attempt env n call)
  unfolding attempt
  attempt-Steady n call kept = record {
    ends = λ s h.
        let ((xs, ids), k) = fair n K lasting s h in
        (
          (
            xs,
            λ id found. ids id (λ missing. found (kept (env.meanwhile n s).sessions id missing)),
          ),
          k,
        );
  }

  -- A longer log keeps the service accounted.
  logged :
      (met : Service) (e : Event) → Holds K met → Holds K (record met { log = met.log ++ e ∷ [] })
  logged met e ((xs, ids), k) = (
    (
      All-Lasting met.executions met.log e xs,
      λ id found. Any-Lasting (Creates id) met.log e (ids id found),
    ),
    lasting met.log e k,
  )

  pub append-Steady : (n : ℕ) (e : Event) → Steady (append env n e)
  unfolding append
  append-Steady n e = record {
    ends = λ s h.
        elim (env.fails n)
          as (λ b.
            Ends {A = Bool} (λ _. Holds K) (λ _. Holds K)
              (let met = env.meanwhile n s in
                if b
                then (done false, met)
                else (done true, record met { log = met.log ++ stamp env.now e ∷ [] }))) [
                  | true ↦ fair n K lasting s h
                  | false ↦ logged (env.meanwhile n s) (stamp env.now e) (fair n K lasting s h)
                ];
  }

  -- What follows a successful append may rely on its event.
  pub append-Adds :
      (P : Event → Type 0) {A : Type 0} (n : ℕ) (e : Event) {m k : Handler A}
      → P (stamp env.now e)
      → Triple (Holds (λ log. K log × Any P log)) m (λ _. Holds K) (λ _. Holds K)
      → Steady k
      → Steady (append env n e >>= λ written. if written then m else k)
  unfolding append ◌>>=◌
  append-Adds P {A} n e {m} {k} p first second = record {
    ends = λ s h. by_case (env.fails n) (env.meanwhile n s) (fair n K lasting s h);
  }
    where
      by_case :
          (b : Bool) (met : Service)
          → Holds K met
          → Ends {A = A}
              (λ _. Holds K)
              (λ _. Holds K)
              (let (ending, s') =
                  (if◌then◌else◌ {A = Ending Bool × Service} b
                    (done false, met)
                    (done true, record met { log = met.log ++ stamp env.now e ∷ [] })) in
                elim ending [
                  | done written ↦ (if written then m else k) s'
                  | answered r ↦ (answered r, s')
                ])
      by_case true met h = second.ends met h
      by_case false met h =
          let (acc, later) = logged met (stamp env.now e) h in
          first.ends (record met { log = met.log ++ stamp env.now e ∷ [] })
            (acc, (later, Any-last P met.log (stamp env.now e) p))

  pub deny-Steady :
      {A : Type 0} (n : ℕ) (e : Event) (code : ℕ) (text : String)
      → Steady (deny {A = A} env n e code text)
  unfolding deny
  deny-Steady n e code text = >>=-Triple (append-Steady n e) λ written.
      if-Triple written (answer-Steady code text) (answer-Steady 500 "audit write failed")

  pub check_switch-Steady :
      (n : ℕ) (always : Bool) (denied : String → Event) (agent : String)
      → Steady (check_switch env n always denied agent)
  unfolding check_switch
  check_switch-Steady n always denied agent = >>=-Triple (read-Steady n _) λ blocked.
      Option-Triple blocked (pure-Steady tt)
        λ reason. deny-Steady (n + 1) (denied reason) 423 reason

  pub refuse_if-Steady : (bad : Bool) (code : ℕ) (text : String) → Steady (refuse_if bad code text)
  unfolding refuse_if
  refuse_if-Steady bad code text = if-Triple bad (answer-Steady code text) (pure-Steady tt)

-- Stamping changes only the time.
pub Confirms-stamp : (x : Execution) (now : ℕ) (e : Event) → Confirms x e → Confirms x (stamp now e)
Confirms-stamp x now e c =
    elim (nat_eq e.recorded_at 0)
      as (λ b. Confirms x (if b then record e { recorded_at = now } else e)) [
        | true ↦ c
        | false ↦ c
      ]

pub Creates-stamp : (id : String) (now : ℕ) (e : Event) → Creates id e → Creates id (stamp now e)
Creates-stamp id now e c =
    elim (nat_eq e.recorded_at 0)
      as (λ b. Creates id (if b then record e { recorded_at = now } else e)) [
        | true ↦ c
        | false ↦ c
      ]

-- A handler keeps less than it could.
pub weaken :
    {A : Type 0} (K F : List Event → Type 0) {m : Handler A}
    → Triple
        (Holds (λ log. K log × F log))
        m
        (λ _. Holds (λ log. K log × F log))
        (λ _. Holds (λ log. K log × F log))
    → Triple (Holds (λ log. K log × F log)) m (λ _. Holds K) (λ _. Holds K)
weaken {A} K F {m} steady = record { ends = λ s h. less (m s) (steady.ends s h) }
  where
    less :
        (e : Ending A × Service)
        → Ends (λ _. Holds (λ log. K log × F log)) (λ _. Holds (λ log. K log × F log)) e
        → Ends (λ _. Holds K) (λ _. Holds K) e
    less (done a, s) (acc, (k, f)) = (acc, k)
    less (answered r, s) (acc, (k, f)) = (acc, k)

pub both-Lasting :
    {K F : List Event → Type 0} → Lasting K → Lasting F → Lasting (λ log. K log × F log)
both-Lasting hk hf log e (k, f) = (hk log e k, hf log e f)
