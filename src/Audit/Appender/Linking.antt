-- ===== src/Audit/Appender/Linking.antt =====
-- What a successful ChainAppender.Append leaves behind, whatever other writers do meanwhile.
use ai_governance_orchestrat.Prelude.Dict.{lookup, insert, lookup-insert_self}
use ai_governance_orchestrat.Prelude.{
  ℕ, zero, suc, String, Bool, true, false, Option, none, some, List, ◌≡◌, ◌≢◌, refl, sym, ap, subst,
  ◌∙◌, ◌==◌, eq_iff, if◌then◌else◌, get_last?, arith, inl, inr, Bool-cases,
}
use ai_governance_orchestrat.Audit.Event.{Event, Hasher, canonical_hash, stamp}
use ai_governance_orchestrat.Audit.Sqlite.{
  Sqlite, Env, events_by_session, session_rows, Result, AuditError, event_id_required,
  event_type_required, cancelled_context, ok, err, rows_of, Appended, appended, not_appended,
  failed, append_if_prev,
}
use ai_governance_orchestrat.Audit.Sqlite.Order.{SortsLast}
use ai_governance_orchestrat.Audit.Sqlite.Append.{
  IsIntact, append_if_prev-IsIntact, append_if_prev-row, get_last?-append, append_if_prev-unchanged,
}
use ai_governance_orchestrat.Audit.Appender.{
  Appender, Moment, arrive, remember_newest, newest_of, latest_hash, candidate, settle, retry,
  attempts, cached_or_loaded, append_stamped, append,
}

-- The store is intact for the session of `e`, and none of the session's rows sorts after `e`.
abbrev pub Ready : Hasher → Event → Sqlite → Type 0
Ready h e s = IsIntact h e.session_id s × SortsLast e (rows_of e.session_id s.rows)

-- Other writers keep the session's chain intact and record nothing that sorts after `e`.
abbrev pub Polite : Hasher → Event → Moment → Type 0
Polite h e m = (s : Sqlite) → Ready h e s → Ready h e (m.others s)

-- What is known after the event was stored as `p`: `p` is the event with a link and its hash, it is
-- the newest row of its session, the chain is intact, and its hash is cached.
abbrev pub Stored : Hasher → Event → Event → Appender → Type 0
Stored h e p a =
    (p ≡ candidate h e p.prev_event_hash)
    × (get_last? (session_rows e.session_id a.store) ≡ some p)
    × IsIntact h e.session_id a.store
    × (lookup e.session_id a.last_hashes ≡ some p.event_hash)

-- A call that reports success has stored the event.
abbrev pub Sound : Hasher → Event → Result Event × Appender → Type 0
Sound h e (err x, a) = Unit
Sound h e (ok p, a) = Stored h e p a

remember_newest-store :
    (a : Appender) (session : String) (o : Option Event)
    → (remember_newest a session o).1.store ≡ a.store
unfolding remember_newest
remember_newest-store a session none = refl
remember_newest-store a session (some x) = refl

newest_of-store :
    (a : Appender) (session : String) (r : Result (List Event))
    → (newest_of a session r).1.store ≡ a.store
unfolding newest_of
newest_of-store a session (err x) = refl
newest_of-store a session (ok events) = remember_newest-store a session (get_last? events)

pub latest_hash-store :
    (m : Moment) (a : Appender) (session : String)
    → (latest_hash m a session).1.store ≡ m.others a.store
unfolding latest_hash
latest_hash-store m a session =
    newest_of-store (arrive m a) session (events_by_session m.env (arrive m a).store session)

module _ (h : Hasher) (e : Event) (named : e.session_id ≢ "") (timed : e.recorded_at ≢ 0) where
  candidate-hash :
      (latest : String) → let c = candidate h e latest in c.event_hash ≡ canonical_hash h c
  unfolding canonical_hash
  candidate-hash latest = refl

  Stored-appended :
      (env : Env) (s : Sqlite) (hashes : List (String × String)) (latest : String) (p : Event)
      → Ready h e s
      → (append_if_prev env s (candidate h e latest) latest).0 ≡ appended p
      → Stored h e p (record {
        store = (append_if_prev env s (candidate h e latest) latest).1;
        last_hashes = insert p.session_id p.event_hash hashes;
      })
  Stored-appended env s hashes latest p ready done =
      let c = candidate h e latest in
      let row : p ≡ c = append_if_prev-row env s c p latest named timed done in
      let facts =
        append_if_prev-IsIntact h env s c p latest named timed (candidate-hash latest) ready.1
          ready.0 done in
      subst
        (λ x. Stored h e x (record {
          store = (append_if_prev env s c latest).1;
          last_hashes = insert x.session_id x.event_hash hashes;
        }))
        (sym row)
        (
          refl,
          ap get_last? facts.1 ∙ get_last?-append (session_rows e.session_id s) c,
          facts.2,
          lookup-insert_self e.session_id c.event_hash hashes,
        )

  -- `settle` is sound if AppendIfPrev was, and the rest of the loop is.
  Sound-settle :
      (a : Appender) (s : Sqlite) (out : Appended) (again : Appender → Result Event × Appender)
      → ((p : Event)
          → out ≡ appended p
          → Stored h e p
              (record { store = s; last_hashes = insert p.session_id p.event_hash a.last_hashes }))
      → (out ≡ not_appended → Sound h e (again (record a { store = s })))
      → Sound h e (settle a s out again)
  unfolding settle
  Sound-settle a s (failed x) again done rest = tt
  Sound-settle a s (appended p) again done rest = done p refl
  Sound-settle a s not_appended again done rest = rest refl

  Sound-retry :
      (r : Result String × Appender) (k : String → Appender → Result Event × Appender)
      → ((latest : String) → Sound h e (k latest r.1))
      → Sound h e (retry r k)
  Sound-retry (err x, a) k sound = tt
  Sound-retry (ok latest, a) k sound = sound latest

  Ready-latest_hash :
      (m : Moment) (a : Appender)
      → Polite h e m
      → Ready h e a.store
      → Ready h e (latest_hash m a e.session_id).1.store
  Ready-latest_hash m a polite ready =
      subst (Ready h e) (sym (latest_hash-store m a e.session_id)) (polite a.store ready)

  ne_appended : (out : Appended) → out ≡ not_appended → (p : Event) → out ≢ appended p
  ne_appended out idle p done = cc

  Sound-attempts :
      (at reload : ℕ → Moment)
      → ((k : ℕ) → Polite h e (at k))
      → ((k : ℕ) → Polite h e (reload k))
      → (tries : ℕ) (latest : String) (a : Appender) → Ready h e a.store
      → Sound h e (attempts h at reload e tries latest a)
  unfolding attempts
  Sound-attempts at reload polite_at polite_reload zero latest a ready = tt
  Sound-attempts at reload polite_at polite_reload (suc left) latest a ready =
      let m = at left in
      let here = arrive m a in
      let c = candidate h e latest in
      let ready_here : Ready h e here.store = polite_at left a.store ready in
      Sound-settle here (append_if_prev m.env here.store c latest).1
        (append_if_prev m.env here.store c latest).0 _
        (λ p done. Stored-appended m.env here.store a.last_hashes latest p ready_here done)
        (λ idle.
          let b = record here { store = (append_if_prev m.env here.store c latest).1 } in
          let kept : Ready h e b.store =
            subst (Ready h e)
              (sym (append_if_prev-unchanged m.env here.store c latest (ne_appended _ idle)))
              ready_here in
          Sound-retry (latest_hash (reload left) b e.session_id) _ (λ newer.
            Sound-attempts at reload polite_at polite_reload left newer
              (latest_hash (reload left) b e.session_id).1
              (Ready-latest_hash (reload left) b (polite_reload left) kept)))

  Sound-loop :
      (first : Moment) (at reload : ℕ → Moment)
      → Polite h e first
      → ((k : ℕ) → Polite h e (at k))
      → ((k : ℕ) → Polite h e (reload k))
      → (a : Appender) (cached : Option String) → Ready h e a.store
      → Sound h e (
          retry
            (cached_or_loaded first a e.session_id cached)
            (λ latest b. attempts h at reload e 3 latest b))
  Sound-loop first at reload pf pa pr a (some latest) ready =
      Sound-attempts at reload pa pr 3 latest a ready
  Sound-loop first at reload pf pa pr a none ready =
      Sound-retry (latest_hash first a e.session_id) _ (λ latest.
        Sound-attempts at reload pa pr 3 latest (latest_hash first a e.session_id).1
          (Ready-latest_hash first a pf ready))

  Sound-append_stamped :
      (first : Moment) (at reload : ℕ → Moment)
      → Polite h e first
      → ((k : ℕ) → Polite h e (at k))
      → ((k : ℕ) → Polite h e (reload k))
      → (a : Appender) → Ready h e a.store
      → Sound h e (append_stamped h first at reload a e)
  unfolding append_stamped
  Sound-append_stamped first at reload pf pa pr a ready = elim (Bool-cases (e.session_id == "")) [
    | inl empty ↦ absurd (named ((eq_iff e.session_id "").0 empty))
    | inr full ↦
        rw full (Sound-loop first at reload pf pa pr a (lookup e.session_id a.last_hashes) ready)
  ]

Sound-guard :
    (h : Hasher) (e : Event) (b : Bool) (x : AuditError) (a : Appender)
    (r : Result Event × Appender)
    → Sound h e r
    → Sound h e (if b then (err x, a) else r)
Sound-guard h e true x a r sound = tt
Sound-guard h e false x a r sound = sound

session_of_stamp : (now : ℕ) (event : Event) → (stamp now event).session_id ≡ event.session_id
session_of_stamp now event = ground arith

-- Append is sound among concurrent writers: for an event with a session and a time, its own or the
-- clock's, if the session's chain is intact, no row of it sorts after the event, and the other
-- writers keep both true, then a call that reports success returns the event with a link and its canonical hash, this is the newest
-- row of the session, the chain is intact again, and its hash is the cached head.
pub append-Sound :
    (h : Hasher) (now : ℕ) (cancelled : Bool) (first : Moment) (at reload : ℕ → Moment)
    (a : Appender) (event : Event)
    → event.session_id ≢ ""
    → (stamp now event).recorded_at ≢ 0
    → Polite h (stamp now event) first
    → ((k : ℕ) → Polite h (stamp now event) (at k))
    → ((k : ℕ) → Polite h (stamp now event) (reload k))
    → Ready h (stamp now event) a.store
    → Sound h (stamp now event) (append h now cancelled first at reload a event)
unfolding append
append-Sound h now cancelled first at reload a event named timed pf pa pr ready =
    let e = stamp now event in
    let same = session_of_stamp now event in
    Sound-guard h e (event.event_id == "") event_id_required a _ (
      Sound-guard h e (event.event_type == "") event_type_required a _ (
        Sound-guard h e cancelled cancelled_context a _ (
          Sound-append_stamped h e (λ p. named (sym same ∙ p)) timed first at reload pf pa pr a
            ready)))
