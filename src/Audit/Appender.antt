-- ===== src/Audit/Appender.antt =====
-- ChainAppender of ai-agent-orch/internal/audit/hashchain.go over the SQLite store, the store that
-- the services are wired with. The appender's mutex makes a call one step against other calls of
-- the same appender; other processes write to the same database between its statements, and a
-- `Moment` says what each statement meets.
pub mod Linking
pub mod Alone
pub mod Wedge
use ai_governance_orchestrat.Prelude.Dict.{lookup, insert}
use ai_governance_orchestrat.Prelude.{
  ℕ, zero, suc, ◌+◌, String, Bool, Option, none, some, List, [], ◌∷◌, ◌==◌, if◌then◌else◌,
  get_last?,
}
use ai_governance_orchestrat.Audit.Event.{Event, Hasher, canonical_hash, stamp}
use ai_governance_orchestrat.Audit.Sqlite.{
  Sqlite, Env, AuditError, event_id_required, event_type_required, cancelled_context,
  append_conflict, Result, ok, err, insert_event, events_by_session, last_hash, Appended, appended,
  not_appended, failed, append_if_prev,
}

pub record Appender : Type 0 where
  pub store : Sqlite
  pub last_hashes : List (String × String)

-- What a store call of the appender meets: the environment, and what other writers have done to
-- the database since the appender's previous call.
pub record Moment : Type 0 where
  pub env : Env
  pub others : Sqlite → Sqlite

abbrev pub arrive : Moment → Appender → Appender
arrive m a = record a { store = m.others a.store }

-- What latestHash does with the events that it has loaded: the newest one's hash is cached.
remember_newest : Appender → String → Option Event → Result String × Appender
remember_newest a session none = (ok "", a)
remember_newest a session (some e) =
    (ok e.event_hash, record a { last_hashes = insert session e.event_hash a.last_hashes })

newest_of : Appender → String → Result (List Event) → Result String × Appender
unfolding remember_newest
newest_of a session (err e) = (err e, a)
newest_of a session (ok events) = remember_newest a session (get_last? events)

-- latestHash, where the session is not empty.
pub latest_hash : Moment → Appender → String → Result String × Appender
unfolding newest_of
latest_hash m a session =
    let here = arrive m a in newest_of here session (events_by_session m.env here.store session)

abbrev pub candidate : Hasher → Event → String → Event
candidate h e latest =
    let linked = record e { prev_event_hash = latest } in
    record linked { event_hash = canonical_hash h linked }

-- What the loop does with the outcome of AppendIfPrev; `again` is the rest of the loop.
settle :
    Appender → Sqlite → Appended → (Appender → Result Event × Appender) → Result Event × Appender
settle a s (failed e) again = (err e, record a { store = s })
settle a s (appended p) again =
    (ok p, record { store = s; last_hashes = insert p.session_id p.event_hash a.last_hashes })
settle a s not_appended again = again (record a { store = s })

abbrev retry :
    Result String × Appender
    → (String → Appender → Result Event × Appender)
    → Result Event × Appender
retry (err e, a) k = (err e, a)
retry (ok latest, a) k = k latest a

-- The loop of at most `tries` attempts. Attempt `k` from the end meets the moments `k` and, after a
-- conflict, the reload's.
attempts :
    Hasher → (ℕ → Moment) → (ℕ → Moment) → Event → ℕ → String → Appender → Result Event × Appender
unfolding settle
attempts h at reload e zero latest a = (err append_conflict, a)
attempts h at reload e (suc left) latest a =
    let here = arrive (at left) a in
    let (out, s) = append_if_prev (at left).env here.store (candidate h e latest) latest in
    settle here s out (λ b.
      retry (latest_hash (reload left) b e.session_id)
        (λ newer c. attempts h at reload e left newer c))

-- The cached head, or the newest hash of the store.
abbrev cached_or_loaded : Moment → Appender → String → Option String → Result String × Appender
cached_or_loaded m a session (some latest) = (ok latest, a)
cached_or_loaded m a session none = latest_hash m a session

-- An event without a session is stored with its hash and no link.
abbrev unlinked : Appender → Result Event × Sqlite → Result Event × Appender
unlinked a (err e, s) = (err e, record a { store = s })
unlinked a (ok p, s) = (ok p, record a { store = s })

-- Append behind its guards and under its mutex, for an event that has its time. `first` is the
-- moment of the first statement.
pub append_stamped :
    Hasher → Moment → (ℕ → Moment) → (ℕ → Moment) → Appender → Event → Result Event × Appender
append_stamped h first at reload a e =
    let here = arrive first a in
    if e.session_id == ""
    then unlinked here
        (insert_event first.env here.store (record e { event_hash = canonical_hash h e }))
    else retry (cached_or_loaded first a e.session_id (lookup e.session_id a.last_hashes))
        (λ latest b. attempts h at reload e 3 latest b)

-- Append. `now` is the appender's clock, `cancelled` the state of the context at the entry.
unfoldable pub append :
    Hasher
    → ℕ
    → Bool
    → Moment
    → (ℕ → Moment)
    → (ℕ → Moment)
    → Appender
    → Event
    → Result Event × Appender
unfolding append_stamped attempts latest_hash
append h now cancelled first at reload a event =
    if event.event_id == ""
    then (err event_id_required, a)
    else if event.event_type == ""
    then (err event_type_required, a)
    else if cancelled
    then (err cancelled_context, a)
    else append_stamped h first at reload a (stamp now event)
