-- ===== src/Audit/Sqlite/Append.antt =====
-- The outcomes of AppendIfPrev (audit/sqlite.go), for the store and for the chain of a session.
use mathlib.Core.List.{reverse, reverse-append}
use ai_governance_orchestrat.Prelude.Dict.{lookup, insert, lookup-insert_self}
use ai_governance_orchestrat.Prelude.{
  ℕ, String, Bool, if◌then◌else◌, true, false, Option, none, some, List, [], ◌∷◌, ◌++◌, ◌≡◌, ◌≢◌,
  refl, sym, ap, get_last?, if◌then◌else◌, not, ◌||◌, ◌==◌, ◌∙◌, eq_iff, eq_refl, arith,
}
use ai_governance_orchestrat.Audit.Event.{Event, Hasher, canonical_hash, stamp}
use ai_governance_orchestrat.Audit.Chain.{verify_chain}
use ai_governance_orchestrat.Audit.Chain.Linked.{head_hash, verify_chain-eq-none_iff}
use ai_governance_orchestrat.Audit.Sqlite.Order.{
  SortsLast, session_rows-append, latest-eq-head_hash,
}
use ai_governance_orchestrat.Audit.Sqlite.{
  Sqlite, Env, Result, ok, err, Appended, appended, failed, failed_at, commit_tx, begin_tx,
  load_head, seed_head, update_head, not_appended, prev_differs, fails, after_insert, direct,
  insert_event, has_event_id, rows_of, session_rows, latest_session_hash, seed, head_is, append_tx,
  append_if_prev,
}

-- What a successful insert is.
pub insert_event-ok :
    (env : Env) (s : Sqlite) (e p : Event)
    → (insert_event env s e).0 ≡ ok p
    → (p ≡ stamp env.now e)
      × (has_event_id e.event_id s.rows ≡ false)
      × ((insert_event env s e).1 ≡ record s { rows = s.rows ++ p ∷ [] })
unfolding insert_event
insert_event-ok env s e p h = ground arith

pub insert_event-err :
    (env : Env) (s : Sqlite) (e : Event)
    → ((p : Event) → (insert_event env s e).0 ≢ ok p)
    → (insert_event env s e).1 ≡ s
unfolding insert_event
insert_event-err env s e h = ground (arith, h (stamp env.now e))

-- The heads as the transaction finds them, after the seeding statement.
abbrev seeded_heads : Sqlite → Event → List (String × String)
seeded_heads s e = seed e.session_id (latest_session_hash e.session_id s) s.heads

stamped : (env : Env) (e : Event) → e.recorded_at ≢ 0 → stamp env.now e ≡ e
stamped env e h = ground arith

-- The transaction appends, and then its effect is the row and the head; or it changes nothing.
record Committed (env : Env) (s : Sqlite) (e : Event) (expected : String) : Type 0 where
  fresh : has_event_id e.event_id s.rows ≡ false
  linked : head_is expected (lookup e.session_id (seeded_heads s e)) ≡ true
  effect : append_tx env s e expected ≡ (
    appended (stamp env.now e),
    record {
      rows = s.rows ++ stamp env.now e ∷ [];
      heads = insert e.session_id e.event_hash (seeded_heads s e);
    },
  )

append_tx-Committed :
    (env : Env) (s : Sqlite) (e p : Event) (expected : String)
    → (append_tx env s e expected).0 ≡ appended p
    → Committed env s e expected
unfolding append_tx insert_event
append_tx-Committed env s e p expected h = record {
  fresh = ground arith;
  linked = ground arith;
  effect = ground arith;
}

-- A result that does not report an append comes with the store as it was.
record Unchanged (s : Sqlite) (r : Appended × Sqlite) : Type 0 where
  same : ((p : Event) → r.0 ≢ appended p) → r.1 ≡ s

Unchanged-guard :
    (s : Sqlite) (b : Bool) (out : Appended) (y : Appended × Sqlite)
    → Unchanged s y
    → Unchanged s (if b then (out, s) else y)
Unchanged-guard s true out y v = record { same = λ h. refl }
Unchanged-guard s false out y v = v

Unchanged-if :
    (s : Sqlite) (b : Bool) (x y : Appended × Sqlite)
    → Unchanged s x
    → Unchanged s y
    → Unchanged s (if b then x else y)
Unchanged-if s true x y u v = u
Unchanged-if s false x y u v = v

Unchanged-after_insert :
    (env : Env) (s : Sqlite) (r : Result Event × Sqlite) → Unchanged s (after_insert env s r)
Unchanged-after_insert env s (err e, t) = record { same = λ h. refl }
Unchanged-after_insert env s (ok p, t) =
    Unchanged-guard s (fails env commit_tx) (failed (failed_at commit_tx)) (appended p, t)
      (record { same = λ h. absurd (h p refl) })

Unchanged-direct :
    (s : Sqlite) (r : Result Event × Sqlite)
    → (((p : Event) → r.0 ≢ ok p) → r.1 ≡ s)
    → Unchanged s (direct r)
Unchanged-direct s (err e, t) same = record { same = λ h. same (λ p eq. cc) }
Unchanged-direct s (ok p, t) same = record { same = λ h. absurd (h p refl) }

append_tx-Unchanged :
    (env : Env) (s : Sqlite) (e : Event) (expected : String)
    → Unchanged s (append_tx env s e expected)
unfolding append_tx
append_tx-Unchanged env s e expected =
    Unchanged-guard s (env.cancelled || fails env begin_tx) (failed (failed_at begin_tx)) _ (
      Unchanged-guard s (fails env load_head) (failed (failed_at load_head)) _ (
        Unchanged-guard s (fails env seed_head) (failed (failed_at seed_head)) _ (
          Unchanged-guard s (fails env update_head) (failed (failed_at update_head)) _ (
            Unchanged-guard s (not (head_is expected (lookup e.session_id (seeded_heads s e))))
              not_appended _
              (Unchanged-after_insert env s (
                insert_event env
                  (record s { heads = insert e.session_id e.event_hash (seeded_heads s e) }) e))))))

-- A call that does not append leaves rows and heads as they were, whatever stopped it.
pub append_if_prev-unchanged :
    (env : Env) (s : Sqlite) (e : Event) (expected : String)
    → ((p : Event) → (append_if_prev env s e expected).0 ≢ appended p)
    → (append_if_prev env s e expected).1 ≡ s
unfolding append_if_prev
append_if_prev-unchanged env s e expected =
    (Unchanged-if s (e.session_id == "") (direct (insert_event env s e)) _
      (Unchanged-direct s (insert_event env s e) (insert_event-err env s e))
      (Unchanged-guard s (not (e.prev_event_hash == expected)) (failed prev_differs) _
        (append_tx-Unchanged env s e expected))).same

-- A successful append for a session goes through the transaction, with a matching link.
append_if_prev-tx :
    (env : Env) (s : Sqlite) (e p : Event) (expected : String)
    → e.session_id ≢ ""
    → (append_if_prev env s e expected).0 ≡ appended p
    → (e.prev_event_hash ≡ expected)
      × (append_if_prev env s e expected ≡ append_tx env s e expected)
unfolding append_if_prev
append_if_prev-tx env s e p expected named h =
    ground (arith, eq_iff e.session_id "", eq_iff e.prev_event_hash expected)

-- Where the heads table speaks of the session, it names the newest row.
abbrev pub Names : Option String → String → Type 0
Names none newest = Unit
Names (some head) newest = head ≡ newest

abbrev pub HeadAgrees : String → Sqlite → Type 0
HeadAgrees session s = Names (lookup session s.heads) (latest_session_hash session s)

Names-some : (o : Option String) (x newest : String) → o ≡ some x → x ≡ newest → Names o newest
Names-some none x newest e n = tt
Names-some (some head) x newest e n = ground arith

seeded_head :
    (s : Sqlite) (e : Event)
    → HeadAgrees e.session_id s
    → lookup e.session_id (seeded_heads s e) ≡ some (latest_session_hash e.session_id s)
seeded_head s e h =
    ground (arith, lookup-insert_self e.session_id (latest_session_hash e.session_id s) s.heads)

head_is-eq :
    (expected : String) (found : Option String) {head : String}
    → head_is expected found ≡ true
    → found ≡ some head
    → expected ≡ head
head_is-eq expected none h e = cc
head_is-eq expected (some x) {head} h e = ground (arith, eq_iff x expected)

-- The row that is stored is the event, with the time of the store if it had none.
pub append_if_prev-row :
    (env : Env) (s : Sqlite) (e p : Event) (expected : String)
    → e.session_id ≢ ""
    → e.recorded_at ≢ 0
    → (append_if_prev env s e expected).0 ≡ appended p
    → p ≡ e
append_if_prev-row env s e p expected named timed done =
    let tx = append_if_prev-tx env s e p expected named done in
    let c = append_tx-Committed env s e p expected (ap (λ r. r.0) (sym tx.1) ∙ done) in
    let same : appended p ≡ appended (stamp env.now e) =
      sym done ∙ ap (λ r. r.0) (tx.1 ∙ c.effect) in
    ground (arith, same)

-- Without a fault, a new event that links to the newest row is appended.
pub append_if_prev-appended :
    (now : ℕ) (s : Sqlite) (e : Event)
    → e.event_id ≢ ""
    → e.event_type ≢ ""
    → e.session_id ≢ ""
    → e.recorded_at ≢ 0
    → has_event_id e.event_id s.rows ≡ false
    → HeadAgrees e.session_id s
    → e.prev_event_hash ≡ latest_session_hash e.session_id s
    → (append_if_prev
        (record { now = now; cancelled = false; fault = none })
        s
        e
        (latest_session_hash e.session_id s)).0
      ≡ appended e
unfolding append_if_prev
append_if_prev-appended now s e id type session timed fresh agrees link = ground (
  arith,
  eq_iff e.event_id "",
  eq_iff e.event_type "",
  eq_iff e.session_id "",
  eq_iff e.prev_event_hash (latest_session_hash e.session_id s),
  seeded_head s e agrees,
  eq_refl (latest_session_hash e.session_id s),
  stamped (record { now = now; cancelled = false; fault = none }) e timed,
)

-- Accepting one more event at the end is accepting the events before it and one more link.
verify_chain-append :
    (h : Hasher) (rows : List Event) (e : Event)
    → verify_chain h rows ≡ none
    → e.event_hash ≡ canonical_hash h e
    → e.prev_event_hash ≡ head_hash (reverse rows)
    → verify_chain h (rows ++ e ∷ []) ≡ none
verify_chain-append h rows e accepted own link =
    (verify_chain-eq-none_iff h (rows ++ e ∷ [])).1
      (rw reverse-append (own, link, (verify_chain-eq-none_iff h rows).0 accepted))

-- The store of a session is intact: its rows, in query order, are an accepted chain, and the heads
-- table agrees with the newest of them.
pub record IsIntact (h : Hasher) (session : String) (s : Sqlite) : Type 0 where
  pub accepted : verify_chain h (session_rows session s) ≡ none
  pub agrees : HeadAgrees session s

-- The store after the append of `e`.
abbrev after : Sqlite → Event → Sqlite
after s e = record {
  rows = s.rows ++ e ∷ [];
  heads = insert e.session_id e.event_hash (seeded_heads s e);
}

after_stamp :
    (env : Env) (s : Sqlite) (e : Event)
    → e.recorded_at ≢ 0
    → ◌≡◌ {A = Sqlite}
        (record {
          rows = s.rows ++ stamp env.now e ∷ [];
          heads = insert e.session_id e.event_hash (seeded_heads s e);
        })
        (after s e)
after_stamp env s e h = ap (λ x. record (after s e) { rows = s.rows ++ x ∷ [] }) (stamped env e h)

rows_after :
    (s : Sqlite) (e : Event)
    → SortsLast e (rows_of e.session_id s.rows)
    → session_rows e.session_id (after s e) ≡ session_rows e.session_id s ++ e ∷ []
rows_after s e last =
    session_rows-append e.session_id s (after s e).heads e (eq_refl e.session_id) last

pub get_last?-append : (rows : List Event) (e : Event) → get_last? (rows ++ e ∷ []) ≡ some e
get_last?-append [] e = refl
get_last?-append (x ∷ []) e = refl
get_last?-append (x ∷ y ∷ rows) e = get_last?-append (y ∷ rows) e

latest_after :
    (s : Sqlite) (e : Event)
    → SortsLast e (rows_of e.session_id s.rows)
    → latest_session_hash e.session_id (after s e) ≡ e.event_hash
unfolding latest_session_hash
latest_after s e last = rw (rows_after s e last, get_last?-append (session_rows e.session_id s) e)

HeadAgrees-after :
    (s : Sqlite) (e : Event)
    → SortsLast e (rows_of e.session_id s.rows)
    → HeadAgrees e.session_id (after s e)
HeadAgrees-after s e last =
    Names-some _ e.event_hash _ (lookup-insert_self e.session_id e.event_hash (seeded_heads s e))
      (sym (latest_after s e last))

-- AppendIfPrev extends an intact chain: if it reports the event as appended, the event carries its
-- own canonical hash and a time, and no row of its session sorts after it, then the link was to the
-- newest row, the session's rows are the old ones and the event, and the session is intact again.
pub append_if_prev-IsIntact :
    (h : Hasher) (env : Env) (s : Sqlite) (e p : Event) (expected : String)
    → e.session_id ≢ ""
    → e.recorded_at ≢ 0
    → e.event_hash ≡ canonical_hash h e
    → SortsLast e (rows_of e.session_id s.rows)
    → IsIntact h e.session_id s
    → (append_if_prev env s e expected).0 ≡ appended p
    → (expected ≡ latest_session_hash e.session_id s)
      × (session_rows e.session_id (append_if_prev env s e expected).1
          ≡ session_rows e.session_id s ++ e ∷ [])
      × IsIntact h e.session_id (append_if_prev env s e expected).1
append_if_prev-IsIntact h env s e p expected named timed own last intact done =
    let tx = append_if_prev-tx env s e p expected named done in
    let c = append_tx-Committed env s e p expected (ap (λ r. r.0) (sym tx.1) ∙ done) in
    let head : expected ≡ latest_session_hash e.session_id s =
      head_is-eq expected _ c.linked (seeded_head s e intact.agrees) in
    let result : (append_if_prev env s e expected).1 ≡ after s e =
      ap (λ r. r.1) (tx.1 ∙ c.effect) ∙ after_stamp env s e timed in
    let link = tx.0 ∙ head ∙ latest-eq-head_hash e.session_id s in
    rw (result, rows_after s e last)
      (
        head,
        refl,
        record {
          accepted = rw (rows_after s e last) (verify_chain-append h _ e intact.accepted own link);
          agrees = HeadAgrees-after s e last;
        },
      )

-- A successful append has found the expected hash in the heads table.
pub append_if_prev-head :
    (env : Env) (s : Sqlite) (e p : Event) (expected head : String)
    → e.session_id ≢ ""
    → lookup e.session_id s.heads ≡ some head
    → (append_if_prev env s e expected).0 ≡ appended p
    → head ≡ expected
append_if_prev-head env s e p expected head named found done =
    let tx = append_if_prev-tx env s e p expected named done in
    let c = append_tx-Committed env s e p expected (ap (λ r. r.0) (sym tx.1) ∙ done) in
    sym (head_is-eq expected _ c.linked (ground arith))

-- The state that a successful append of an event with a time leaves.
pub append_if_prev-after :
    (env : Env) (s : Sqlite) (e p : Event) (expected : String)
    → e.session_id ≢ ""
    → e.recorded_at ≢ 0
    → (append_if_prev env s e expected).0 ≡ appended p
    → ((append_if_prev env s e expected).1.rows ≡ s.rows ++ e ∷ [])
      × (lookup e.session_id (append_if_prev env s e expected).1.heads ≡ some e.event_hash)
append_if_prev-after env s e p expected named timed done =
    let tx = append_if_prev-tx env s e p expected named done in
    let c = append_tx-Committed env s e p expected (ap (λ r. r.0) (sym tx.1) ∙ done) in
    let result : (append_if_prev env s e expected).1 ≡ after s e =
      ap (λ r. r.1) (tx.1 ∙ c.effect) ∙ after_stamp env s e timed in
    (
      ap (λ t. t.rows) result,
      ap (λ t. lookup e.session_id t.heads) result
          ∙ lookup-insert_self e.session_id e.event_hash (seeded_heads s e),
    )
