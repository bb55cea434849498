-- ===== src/Session/Service/Steps.antt =====
-- Runs of a handler's first calls, where it goes on (the calls of ai-agent-orch/internal/governance).
use ai_governance_orchestrat.Prelude.{ℕ, String, Bool, false, ◌≡◌, refl, ap}
use ai_governance_orchestrat.Session.Service.{
  Service, Environment, Ending, done, answered, Handler, pure, ◌>>=◌, ◌>>◌, refuse_if,
}

-- A step that gives a value goes on with it.
pub >>=-done :
    {A B : Type 0} (m : Handler A) (f : A → Handler B) (s s' : Service) (a : A)
    → m s ≡ (done a, s')
    → (m >>= f) s ≡ f a s'
unfolding ◌>>=◌
>>=-done {A} {B} m f s s' a e =
    ap
      (λ (e : Ending A × Service).
        let (ending, t) = e in
        elim ending as (λ x. Ending B × Service) [ done b ↦ f b t | answered r ↦ (answered r, t) ])
      e

pub >>-done :
    {B : Type 0} (m : Handler (Unit {0})) (k : Handler B) (s s' : Service)
    → m s ≡ (done tt, s')
    → (m >> k) s ≡ k s'
unfolding ◌>>◌
>>-done m k s s' e = >>=-done m (λ _. k) s s' tt e

pub refuse_if-done :
    (bad : Bool) (code : ℕ) (text : String) (s : Service)
    → bad ≡ false
    → refuse_if bad code text s ≡ (done tt, s)
unfolding refuse_if pure
refuse_if-done bad code text s e = rw e refl

-- An environment in which nothing fails and nothing happens in between.
abbrev pub alone : ℕ → (ℕ → String) → Environment
alone now new_id = record { now = now; new_id = new_id; fails = λ n. false; meanwhile = λ n s. s }
