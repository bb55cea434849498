-- ===== src/Audit/Appender/Wedge.antt =====
-- Sessions whose heads table does not name the newest row in query order (audit/sqlite.go), and
-- ChainAppender.Append on them with nothing cached, as in another process or after a restart.
use ai_governance_orchestrat.Prelude.Dict.{lookup}
use ai_governance_orchestrat.Prelude.{
  ◌<◌, ◌+◌, ◌*◌, ◌∷◌, [], ℕ, zero, suc, String, false, Option, none, some, ◌≡◌, ◌≢◌, refl, ap, ◌∙◌,
  arith, get_last?,
}
use ai_governance_orchestrat.Audit.Event.{Event, Hasher}
use ai_governance_orchestrat.Audit.Sqlite.{
  Sqlite, Env, rows_of, Result, ok, err, Appended, failed, not_appended, latest_session_hash,
  appended, append_if_prev, events_by_session, session_rows, last_hash,
}
use ai_governance_orchestrat.Audit.Timestamp.{second, sorts_before, whole_second-sorts_last}
use ai_governance_orchestrat.Audit.Sqlite.Order.{latest-misplaced}
use ai_governance_orchestrat.Audit.Sqlite.Append.{
  append_if_prev-after, append_if_prev-unchanged, append_if_prev-head,
}
use ai_governance_orchestrat.Audit.Appender.Alone.{not_eq}
use ai_governance_orchestrat.Audit.Appender.Linking.{latest_hash-store}
use ai_governance_orchestrat.Audit.Appender.{
  Appender, Moment, arrive, candidate, remember_newest, newest_of, latest_hash, settle, retry,
  attempts, append_stamped,
}

-- The heads table names another event than the newest row.
abbrev pub HeadOff : String → Sqlite → Type 0
HeadOff session s =
    (head : String) × (lookup session s.heads ≡ some head) × (head ≢ latest_session_hash session s)

-- Nobody else writes; statements may fail.
abbrev pub Unshared : Moment → Type 0
Unshared m = (s : Sqlite) → m.others s ≡ s

-- The call fails, and the database is as before.
abbrev pub Refused : Sqlite → Result Event × Appender → Type 0
Refused s r = ((p : Event) → r.0 ≢ ok p) × (r.1.store ≡ s)

remember_newest-hash :
    (a : Appender) (session latest : String) (o : Option Event)
    → (remember_newest a session o).0 ≡ ok latest
    → latest ≡ last_hash o
unfolding remember_newest
remember_newest-hash a session latest none e = ground arith
remember_newest-hash a session latest (some x) e = ground arith

newest_of-hash :
    (m : Moment) (a : Appender) (session latest : String)
    → (newest_of a session (events_by_session m.env a.store session)).0 ≡ ok latest
    → latest ≡ latest_session_hash session a.store
unfolding newest_of events_by_session latest_session_hash
newest_of-hash m a session latest e =
    ground (arith, remember_newest-hash a session latest (get_last? (session_rows session a.store)))

module _ (h : Hasher) (e : Event) (session : e.session_id ≢ "") (s : Sqlite)
    (off : HeadOff e.session_id s) where
  latest_hash-newest :
      (m : Moment) (a : Appender) (latest : String)
      → Unshared m
      → a.store ≡ s
      → (latest_hash m a e.session_id).0 ≡ ok latest
      → latest ≡ latest_session_hash e.session_id s
  unfolding latest_hash
  latest_hash-newest m a latest unshared same loaded =
      newest_of-hash m (arrive m a) e.session_id latest loaded
      ∙ ap (latest_session_hash e.session_id) (unshared a.store ∙ same)

  not_appended_off :
      (m : Moment) (t : Sqlite) (latest : String) (p : Event)
      → t ≡ s
      → latest ≡ latest_session_hash e.session_id s
      → (append_if_prev m.env t (candidate h e latest) latest).0 ≢ appended p
  not_appended_off m t latest p same newest done = off.2 (
      append_if_prev-head m.env t (candidate h e latest) p latest off.0 session
        (ap (λ u. lookup e.session_id u.heads) same ∙ off.1) done
      ∙ newest)

  Refused-settle :
      (a : Appender) (t : Sqlite) (out : Appended) (again : Appender → Result Event × Appender)
      → t ≡ s
      → ((p : Event) → out ≢ appended p)
      → Refused s (again (record a { store = t }))
      → Refused s (settle a t out again)
  unfolding settle
  Refused-settle a t (failed x) again same never rest = (λ p z. cc, same)
  Refused-settle a t (appended p) again same never rest = absurd (never p refl)
  Refused-settle a t not_appended again same never rest = rest

  Refused-retry :
      (r : Result String × Appender) (k : String → Appender → Result Event × Appender)
      → r.1.store ≡ s
      → ((latest : String) → r.0 ≡ ok latest → Refused s (k latest r.1))
      → Refused s (retry r k)
  Refused-retry (err x, a) k same rest = (λ p z. cc, same)
  Refused-retry (ok latest, a) k same rest = rest latest refl

  Refused-attempts :
      (at reload : ℕ → Moment)
      → ((k : ℕ) → Unshared (at k))
      → ((k : ℕ) → Unshared (reload k))
      → (tries : ℕ) (latest : String) (a : Appender) → a.store ≡ s
      → latest ≡ latest_session_hash e.session_id s
      → Refused s (attempts h at reload e tries latest a)
  unfolding attempts
  Refused-attempts at reload ua ur zero latest a same newest = (λ p z. cc, same)
  Refused-attempts at reload ua ur (suc left) latest a same newest =
      let m = at left in
      let here = arrive m a in
      let c = candidate h e latest in
      let t = (append_if_prev m.env here.store c latest).1 in
      let arrived : here.store ≡ s = ua left a.store ∙ same in
      let never = λ (p : Event). not_appended_off m here.store latest p arrived newest in
      let kept : t ≡ s = append_if_prev-unchanged m.env here.store c latest never ∙ arrived in
      let b = record here { store = t } in
      Refused-settle here t (append_if_prev m.env here.store c latest).0 _ kept never (
        Refused-retry (latest_hash (reload left) b e.session_id) _
          (latest_hash-store (reload left) b e.session_id ∙ ur left t ∙ kept)
          (λ newer loaded.
            Refused-attempts at reload ua ur left newer (latest_hash (reload left) b e.session_id).1
              (latest_hash-store (reload left) b e.session_id ∙ ur left t ∙ kept)
              (latest_hash-newest (reload left) b newer (ur left) kept loaded)))

-- With no other writer, an append by an appender with no cached head of the session, whose heads
-- table names another event than the newest row, fails whatever the statements do, and the database
-- stays as it was.
pub append_stamped-Refused :
    (h : Hasher) (first : Moment) (at reload : ℕ → Moment) (a : Appender) (e : Event)
    → e.session_id ≢ ""
    → Unshared first
    → ((k : ℕ) → Unshared (at k))
    → ((k : ℕ) → Unshared (reload k))
    → lookup e.session_id a.last_hashes ≡ none
    → HeadOff e.session_id a.store
    → Refused a.store (append_stamped h first at reload a e)
unfolding append_stamped
append_stamped-Refused h first at reload a e session uf ua ur cold off =
    let start = latest_hash first a e.session_id in
    let kept = latest_hash-store first a e.session_id ∙ uf a.store in
    rw (not_eq e.session_id session, cold)
      (Refused-retry h e session a.store off start _ kept (λ latest loaded.
        Refused-attempts h e session a.store off at reload ua ur 3 latest start.1 kept
          (latest_hash-newest h e session a.store off first a latest uf refl loaded)))

-- How a session gets there: its one event was recorded at a whole second, and the next is appended
-- with a later time of the same second. The append succeeds, and leaves the heads table and the
-- newest row in query order apart.
pub append_if_prev-HeadOff :
    (env : Env) (s : Sqlite) (x e p : Event) (expected : String) (sec nanos : ℕ)
    → 0 < nanos
    → nanos < second
    → x.recorded_at ≡ sec * second
    → e.recorded_at ≡ sec * second + nanos
    → e.session_id ≢ ""
    → e.event_hash ≢ x.event_hash
    → rows_of e.session_id s.rows ≡ x ∷ []
    → (append_if_prev env s e expected).0 ≡ appended p
    → HeadOff e.session_id (append_if_prev env s e expected).1
append_if_prev-HeadOff env s x e p expected sec nanos pos below tx te session other one done =
    let facts = append_if_prev-after env s e p expected session (λ z. absurd (omega arith)) done in
    let late : sorts_before x.recorded_at e.recorded_at ≡ false =
      rw (tx, te) ((whole_second-sorts_last sec nanos pos below).0) in
    let newest =
      latest-misplaced e.session_id s (append_if_prev env s e expected).1 x e one facts.0 refl
        late in
    (e.event_hash, facts.1, λ z. other (z ∙ newest))
