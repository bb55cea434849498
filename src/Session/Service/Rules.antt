-- ===== src/Session/Service/Rules.antt =====
-- Rules of proof for handlers (governance/sessions.go): from a state that satisfies P, a step ends
-- with a value and a state that satisfy Q, or with an answer and a state that satisfy R.
use ai_governance_orchestrat.Prelude.{Bool, true, false, Option, none, some, if◌then◌else◌}
use ai_governance_orchestrat.Session.Service.{
  Service, Reply, Ending, done, answered, Handler, ◌>>=◌, ◌>>◌,
}

abbrev pub Ends :
    {A : Type 0} → (A → Service → Type 0) → (Reply → Service → Type 0) → Ending A × Service → Type 0
Ends Q R (done a, s) = Q a s
Ends Q R (answered r, s) = R r s

pub record Triple {A : Type 0} (P : Service → Type 0) (m : Handler A) (Q : A → Service → Type 0)
    (R : Reply → Service → Type 0) : Type 0 where
  pub ends : (s : Service) → P s → Ends Q R (m s)

module _ {P : Service → Type 0} {R : Reply → Service → Type 0} where
  pub >>=-Triple :
      {A B : Type 0} {m : Handler A} {f : A → Handler B} {Q : A → Service → Type 0}
      {Q' : B → Service → Type 0}
      → Triple P m Q R
      → ((a : A) → Triple (Q a) (f a) Q' R)
      → Triple P (m >>= f) Q' R
  unfolding ◌>>=◌
  >>=-Triple {A} {B} {m} {f} {Q} {Q'} first next = record {
    ends = λ s p. after (m s) (first.ends s p);
  }
    where
      after :
          (e : Ending A × Service)
          → Ends Q R e
          → Ends Q' R (
              let (ending, s') = e in
              elim ending [ done a ↦ f a s' | answered r ↦ (answered r, s') ])
      after (done a, s') q = (next a).ends s' q
      after (answered r, s') q = q

  pub >>-Triple :
      {B : Type 0} {m : Handler (Unit {0})} {k : Handler B} {Q : Unit {0} → Service → Type 0}
      {Q' : B → Service → Type 0}
      → Triple P m Q R
      → Triple (Q tt) k Q' R
      → Triple P (m >> k) Q' R
  unfolding ◌>>◌
  >>-Triple first next = >>=-Triple first λ _. next

  pub if-Triple :
      {A : Type 0} (b : Bool) {m k : Handler A} {Q : A → Service → Type 0}
      → Triple P m Q R
      → Triple P k Q R
      → Triple P (if b then m else k) Q R
  if-Triple true first second = first
  if-Triple false first second = second

  pub Option-Triple :
      {A B : Type 0} (o : Option A) {m : Handler B} {f : A → Handler B} {Q : B → Service → Type 0}
      → Triple P m Q R
      → ((a : A) → Triple P (f a) Q R)
      → Triple P (elim o [ none ↦ m | some a ↦ f a ]) Q R
  Option-Triple none first second = first
  Option-Triple (some a) first second = second a
