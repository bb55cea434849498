-- ===== src/Session/Service/Local/Cancels.antt =====
-- Whose cancel function a session has (governance/session_local_state.go).
use ai_governance_orchestrat.Prelude.Dict.{lookup, insert, lookup-insert_self}
use ai_governance_orchestrat.Prelude.{
  ℕ, ◌+◌, ◌≤◌, ◌⊎◌, String, some, List, [], ◌∷◌, ◌==◌, ◌≡◌, ◌≢◌, refl, arith, eq_iff, eq_refl,
  Bool-cases, inl, inr,
}
use ai_governance_orchestrat.Session.Service.{Service}
use ai_governance_orchestrat.Session.Service.Local.{fresh, register_cancel, cancel_execution}

-- An entry of the time `t` is kept by an eviction at `now` that finds it no older than the
-- time-to-live, where there is one.
abbrev pub IsLive : ℕ → ℕ → ℕ → Type 0
IsLive ttl t now = (ttl ≡ 0) ⊎ (now ≤ t + ttl)

fresh-insert :
    (ttl t now : ℕ) (id : String) (run : ℕ) (entries : List (String × (ℕ × ℕ)))
    → IsLive ttl t now
    → lookup id (fresh ttl now (insert id (run, t) entries)) ≡ some (run, t)
unfolding fresh insert lookup
fresh-insert ttl t now id run [] live = ground (arith, eq_refl id)
fresh-insert ttl t now id run ((own, (old, t')) ∷ entries) live =
    let later = fresh-insert ttl t now id run entries live in
    ground (arith, later, eq_refl id, eq_iff own id, lookup-insert_self id (run, t) entries)

-- The cancelExecution that an execution defers to its end cancels, where a later execution of the
-- same session has registered since and its registration is not yet evicted, the later one and not
-- itself.
pub cancel_execution-latest :
    (ttl first second now : ℕ) (id : String) (earlier later : ℕ) (s : Service)
    → id ≢ ""
    → IsLive ttl second now
    → (cancel_execution ttl now id
        (register_cancel second id later (register_cancel first id earlier s))).cancelled
      ≡ later ∷ s.cancelled
unfolding cancel_execution register_cancel
cancel_execution-latest ttl first second now id earlier later s named live =
    elim (Bool-cases (id == "")) [
      | inl empty ↦ absurd (named ((eq_iff id "").0 empty))
      | inr given ↦
          rw
            (
              given,
              fresh-insert ttl second now id later (insert id (earlier, first) s.cancels) live,
            )
            refl
    ]
