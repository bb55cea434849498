-- ===== src/Audit/Appender/Alone.antt =====
-- ChainAppender.Append with no other writer and no fault.
use ai_governance_orchestrat.Prelude.Dict.{lookup, lookup-insert_self}
use ai_governance_orchestrat.Prelude.{
  ℕ, zero, suc, ◌<◌, nat_eq, subst, String, true, false, Option, none, some, [], ◌∷◌, ◌++◌, ◌≡◌,
  ◌≢◌, refl, sym, ap, ◌∙◌, ◌==◌, eq_iff, arith, ◌⊎◌, inl, inr, get_last?,
}
use ai_governance_orchestrat.Audit.Event.{Event, Hasher, stamp}
use ai_governance_orchestrat.Audit.Sqlite.{
  Sqlite, Result, ok, has_event_id, latest_session_hash, events_by_session, session_rows, last_hash,
}
use ai_governance_orchestrat.Audit.Sqlite.Append.{
  HeadAgrees, append_if_prev-appended, append_if_prev-after,
}
use ai_governance_orchestrat.Audit.Appender.{
  Appender, Moment, candidate, remember_newest, newest_of, latest_hash, settle, attempts,
  append_stamped, append,
}

pub not_eq : (s : String) → s ≢ "" → (s == "") ≡ false
not_eq s h = ground (arith, eq_iff s "")

-- Nothing fails, and nobody else writes.
abbrev pub quiet : ℕ → Moment
quiet now = record { env = record { now = now; cancelled = false; fault = none }; others = λ s. s }

remember_newest-ok :
    (a : Appender) (session : String) (o : Option Event)
    → (b : Appender) × (remember_newest a session o ≡ (ok (last_hash o), b)) × (b.store ≡ a.store)
unfolding remember_newest
remember_newest-ok a session none = (a, refl, refl)
remember_newest-ok a session (some e) = (_, refl, refl)

events_by_session-ok :
    (now : ℕ) (s : Sqlite) (session : String)
    → session ≢ ""
    → events_by_session (quiet now).env s session ≡ ok (session_rows session s)
unfolding events_by_session
events_by_session-ok now s session named = ground (arith, eq_iff session "")

-- latestHash gives the newest hash and leaves the store alone.
latest_hash-quiet :
    (now : ℕ) (a : Appender) (session : String)
    → session ≢ ""
    → (b : Appender) × (latest_hash (quiet now) a session
        ≡ (ok (latest_session_hash session a.store), b))
      × (b.store ≡ a.store)
unfolding latest_hash newest_of latest_session_hash
latest_hash-quiet now a session named =
    rw (events_by_session-ok now a.store session named)
      (remember_newest-ok a session (get_last? (session_rows session a.store)))

-- The event was appended: the call returns it, it is the one new row, and its hash is cached.
abbrev pub Appends : Sqlite → Event → Result Event × Appender → Type 0
Appends s p r =
    (r.0 ≡ ok p)
    × (r.1.store.rows ≡ s.rows ++ p ∷ [])
    × (lookup p.session_id r.1.last_hashes ≡ some p.event_hash)

module _ (h : Hasher) (now : ℕ) (e : Event) (id : e.event_id ≢ "") (type : e.event_type ≢ "")
    (session : e.session_id ≢ "") (timed : e.recorded_at ≢ 0) where
  -- The first attempt succeeds where it is given the newest hash.
  attempts-ok :
      (latest : String) (a : Appender)
      → latest ≡ latest_session_hash e.session_id a.store
      → has_event_id e.event_id a.store.rows ≡ false
      → HeadAgrees e.session_id a.store
      → Appends a.store
          (candidate h e latest)
          (attempts h (λ _. quiet now) (λ _. quiet now) e 3 latest a)
  unfolding attempts settle
  attempts-ok latest a newest fresh agrees =
      let newest_hash = latest_session_hash e.session_id a.store in
      let c = candidate h e newest_hash in
      let done = append_if_prev-appended now a.store c id type session timed fresh agrees refl in
      let row =
        (append_if_prev-after (quiet now).env a.store c c newest_hash session timed done).0 in
      rw newest (
        rw done (
          refl,
          row,
          lookup-insert_self e.session_id (candidate h e newest_hash).event_hash a.last_hashes,
        ))

  -- Alone and without a fault, an event with a fresh id is appended, linked to the newest row.
  append_stamped-ok :
      (a : Appender)
      → has_event_id e.event_id a.store.rows ≡ false
      → HeadAgrees e.session_id a.store
      → (lookup e.session_id a.last_hashes ≡ none)
        ⊎ (lookup e.session_id a.last_hashes ≡ some (latest_session_hash e.session_id a.store))
      → Appends a.store
          (candidate h e (latest_session_hash e.session_id a.store))
          (append_stamped h (quiet now) (λ _. quiet now) (λ _. quiet now) a e)
  unfolding append_stamped
  append_stamped-ok a fresh agrees (inl cold) =
      let (b, loaded, same) = latest_hash-quiet now a e.session_id session in
      rw (not_eq e.session_id session, cold, loaded)
        (subst
          (λ s. Appends s (candidate h e (latest_session_hash e.session_id a.store)) (
            attempts h (λ _. quiet now) (λ _. quiet now) e 3
              (latest_session_hash e.session_id a.store) b))
          same
          (attempts-ok (latest_session_hash e.session_id a.store) b
            (ap (latest_session_hash e.session_id) (sym same))
            (ap (λ s. has_event_id e.event_id s.rows) same ∙ fresh)
            (subst (HeadAgrees e.session_id) (sym same) agrees)))
  append_stamped-ok a fresh agrees (inr warm) =
      rw (not_eq e.session_id session, warm)
        (attempts-ok (latest_session_hash e.session_id a.store) a refl fresh agrees)

nat_eq_cases : (n : ℕ) → ((nat_eq n 0 ≡ true) × (n ≡ 0)) ⊎ ((nat_eq n 0 ≡ false) × (n ≢ 0))
nat_eq_cases zero = inl (ground arith, refl)
nat_eq_cases (suc n) = inr (ground arith, λ e. omega arith)

-- Append is live: without a fault and with no other writer, an event with an id, a type, a session
-- and an id that no row has is stored as one new row, with the link to the newest row and its hash,
-- returned so, and its hash cached, where the heads table and the cache, as far as they speak of
-- the session, name the newest row.
pub append-ok :
    (h : Hasher) (now : ℕ) (a : Appender) (event : Event)
    → 0 < now
    → event.event_id ≢ ""
    → event.event_type ≢ ""
    → event.session_id ≢ ""
    → has_event_id event.event_id a.store.rows ≡ false
    → HeadAgrees event.session_id a.store
    → (lookup event.session_id a.last_hashes ≡ none)
      ⊎ (lookup event.session_id a.last_hashes
          ≡ some (latest_session_hash event.session_id a.store))
    → Appends a.store
        (candidate h (stamp now event) (latest_session_hash event.session_id a.store))
        (append h now false (quiet now) (λ _. quiet now) (λ _. quiet now) a event)
unfolding append
append-ok h now a event running id type session fresh agrees cached =
    rw (not_eq event.event_id id, not_eq event.event_type type)
      (elim (nat_eq_cases event.recorded_at) [
        | inl unset ↦ rw unset.0 (
            append_stamped-ok h now (record event { recorded_at = now }) id type session
              (λ z. absurd (omega arith)) a fresh agrees cached)
        | inr set ↦
            rw set.0 (append_stamped-ok h now event id type session set.1 a fresh agrees cached)
      ])
