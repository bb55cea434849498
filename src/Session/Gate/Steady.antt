-- ===== src/Session/Gate/Steady.antt =====
-- The shared guards of the handlers (ai-agent-orch/internal/governance) among other requests.
use ai_governance_orchestrat.Audit.Event.{Event}
use ai_governance_orchestrat.Prelude.{ℕ, String, Option, none, some, List}
use ai_governance_orchestrat.Session.Auth.{AuthOutcome, subject, refused, actor_from_context}
use ai_governance_orchestrat.Session.Record.{SessionRecord}
use ai_governance_orchestrat.Session.Request.{Body, decoded, undecodable}
use ai_governance_orchestrat.Session.Gate.{
  Config, HttpRequest, admit, authorize, session_id_for, read_body, check_owner, owned,
}
use ai_governance_orchestrat.Session.Service.{Environment}
use ai_governance_orchestrat.Session.Service.Rules.{>>=-Triple, >>-Triple, if-Triple}
use ai_governance_orchestrat.Session.Service.Steady.{
  Lasting, IsFair, Steady, pure-Steady, answer-Steady, read-Steady, deny-Steady, refuse_if-Steady,
}

module _ (env : Environment) (fair : (n : ℕ) → IsFair (env.meanwhile n)) (K : List Event → Type 0)
    (lasting : Lasting K) where
  module _ {Usd : Type 0} (config : Config Usd) (request : HttpRequest) where
    pub admit-Steady :
        (n : ℕ) (o : AuthOutcome) → Steady env fair K lasting (admit config env request n o)
    unfolding admit
    admit-Steady n (subject name) = pure-Steady env fair K lasting (actor_from_context name)
    admit-Steady n (refused why code text) = deny-Steady env fair K lasting n _ code text

    pub authorize-Steady : (n : ℕ) → Steady env fair K lasting (authorize config env request n)
    unfolding authorize
    authorize-Steady n =
        >>-Triple (refuse_if-Steady env fair K lasting _ 405 "method not allowed")
          (admit-Steady n _)

    pub session_id_for-Steady :
        (suffix : String) → Steady env fair K lasting (session_id_for config env request suffix)
    unfolding session_id_for
    session_id_for-Steady suffix =
        >>-Triple (refuse_if-Steady env fair K lasting _ 400 "valid session ID is required")
          (pure-Steady env fair K lasting _)

  pub read_body-Steady : {A : Type 0} (body : Body A) → Steady env fair K lasting (read_body body)
  unfolding read_body
  read_body-Steady (decoded a) = pure-Steady env fair K lasting a
  read_body-Steady (undecodable problem) =
      answer-Steady env fair K lasting 400 "invalid request body"

  pub check_owner-Steady :
      (actor : String) (o : Option SessionRecord) → Steady env fair K lasting (check_owner actor o)
  unfolding check_owner
  check_owner-Steady actor none = answer-Steady env fair K lasting 404 "session not found"
  check_owner-Steady actor (some rec) =
      if-Triple _ (pure-Steady env fair K lasting rec)
        (answer-Steady env fair K lasting 403 "session ownership mismatch")

  pub owned-Steady : (n : ℕ) (id actor : String) → Steady env fair K lasting (owned env n id actor)
  unfolding owned
  owned-Steady n id actor =
      >>=-Triple (read-Steady env fair K lasting n _) λ found. check_owner-Steady actor found
