-- ===== src/Session/Service/Quiet.antt =====
-- Handlers (governance/sessions.go) with no other request or execution between their calls, and what
-- their calls leave of the sessions and the executions.
use ai_governance_orchestrat.Audit.Event.{Event, stamp}
use ai_governance_orchestrat.Prelude.{
  ℕ, ◌+◌, String, Bool, true, false, List, [], ◌∷◌, ◌++◌, ◌≡◌, if◌then◌else◌,
}
use ai_governance_orchestrat.Session.Record.{Sessions}
use ai_governance_orchestrat.Session.Service.{
  Service, Execution, Environment, Reply, Ending, done, Handler, pure, answer, read, write,
  refuse_if, append, deny, check_switch,
}
use ai_governance_orchestrat.Session.Service.Rules.{
  Ends, Triple, >>=-Triple, if-Triple, Option-Triple,
}
use ai_governance_orchestrat.Session.Service.Steady.{Harmless}

-- Nothing happens between the calls.
abbrev pub IsQuiet : Environment → Type 0
IsQuiet env = (n : ℕ) (s : Service) → env.meanwhile n s ≡ s

-- A predicate on the sessions and the executions, of a service.
abbrev pub On : (Sessions → List Execution → Type 0) → Service → Type 0
On P s = P s.sessions s.executions

module _ (env : Environment) (quiet : IsQuiet env) (P : Sessions → List Execution → Type 0) where
  abbrev pub Keeps : {A : Type 0} → Handler A → Type 0
  Keeps m = Triple (On P) m (λ _. On P) (λ _. On P)

  met-On : (n : ℕ) (s : Service) → On P s → On P (env.meanwhile n s)
  met-On n s h = rw (quiet n s) h

  pub pure-Keeps :
      {R : Reply → Service → Type 0} {A : Type 0} (a : A) → Triple (On P) (pure a) (λ _. On P) R
  unfolding pure
  pure-Keeps a = record { ends = λ s h. h }

  pub answer-Keeps :
      {A : Type 0} {Q : A → Service → Type 0} (code : ℕ) (text : String)
      → Triple (On P) (answer {A = A} code text) Q (λ _. On P)
  unfolding answer
  answer-Keeps code text = record { ends = λ s h. h }

  pub read-Keeps :
      {R : Reply → Service → Type 0} {A : Type 0} (n : ℕ) (f : Service → A)
      → Triple (On P) (read env n f) (λ _. On P) R
  unfolding read
  read-Keeps n f = record { ends = λ s h. met-On n s h }

  pub write-Keeps :
      {R : Reply → Service → Type 0} (n : ℕ) (f : Service → Service)
      → Harmless f
      → Triple (On P) (write env n f) (λ _. On P) R
  unfolding write
  write-Keeps n f harmless = record {
    ends = λ s h. let (e1, e2, e3) = harmless (env.meanwhile n s) in rw (e1, e3) (met-On n s h);
  }

  pub append-Keeps :
      {R : Reply → Service → Type 0} (n : ℕ) (e : Event)
      → Triple (On P) (append env n e) (λ _. On P) R
  unfolding append
  append-Keeps {R} n e = record {
    ends = λ s h.
        elim (env.fails n)
          as (λ b.
            Ends {A = Bool} (λ _. On P) R
              (let met = env.meanwhile n s in
                if◌then◌else◌ {A = Ending Bool × Service} b (done false, met)
                  (done true, record met { log = met.log ++ stamp env.now e ∷ [] }))) [
                    | true ↦ met-On n s h
                    | false ↦ met-On n s h
                  ];
  }

  pub deny-Keeps :
      {A : Type 0} {Q : A → Service → Type 0} (n : ℕ) (e : Event) (code : ℕ) (text : String)
      → Triple (On P) (deny {A = A} env n e code text) Q (λ _. On P)
  unfolding deny
  deny-Keeps n e code text =
      >>=-Triple (append-Keeps n e) λ written.
        if-Triple written (answer-Keeps code text) (answer-Keeps 500 "audit write failed")

  pub check_switch-Keeps :
      (n : ℕ) (always : Bool) (denied : String → Event) (agent : String)
      → Keeps (check_switch env n always denied agent)
  unfolding check_switch
  check_switch-Keeps n always denied agent = >>=-Triple (read-Keeps n _) λ blocked.
      Option-Triple blocked (pure-Keeps tt) λ reason. deny-Keeps (n + 1) (denied reason) 423 reason

  pub refuse_if-Keeps : (bad : Bool) (code : ℕ) (text : String) → Keeps (refuse_if bad code text)
  unfolding refuse_if
  refuse_if-Keeps bad code text = if-Triple bad (answer-Keeps code text) (pure-Keeps tt)
