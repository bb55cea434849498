-- ===== src/Tests/Audit.antt =====
-- A session of two events under a transparent hash, and what the store and the appender make of it.
use Prim.Native.String.{◌++◌ as str_append}
use mathlib.Core.List.{reverse}
use ai_governance_orchestrat.Prelude.Dict.{lookup, insert}
use ai_governance_orchestrat.Prelude.{
  ℕ, ◌+◌, ◌*◌, String, true, false, none, some, List, [], ◌∷◌, ◌++◌, ◌≡◌, ◌≢◌, refl, sym, ap, ◌∙◌,
  ◌↔◌, inl, arith, eq_iff,
}
use ai_governance_orchestrat.Audit.Event.{Event, zero_event, Hasher, canonical_hash, stamp}
use ai_governance_orchestrat.Audit.Chain.{verify_chain, prev_mismatch}
use ai_governance_orchestrat.Audit.Chain.Linked.{Linked, verify_chain-eq-none_iff}
use ai_governance_orchestrat.Audit.Chain.Tamper.{verify_chain_unique}
use ai_governance_orchestrat.Audit.Timestamp.{second, sorts_before, whole_second-sorts_last}
use ai_governance_orchestrat.Audit.Sqlite.{
  Sqlite, Env, session_rows, latest_session_hash, events_by_session, has_event_id, appended,
  not_appended, failed, prev_differs, append_if_prev, ok, rows_of,
}
use ai_governance_orchestrat.Audit.Sqlite.Order.{SortsLast}
use ai_governance_orchestrat.Audit.Sqlite.Append.{
  IsIntact, append_if_prev-IsIntact, append_if_prev-unchanged,
}
use ai_governance_orchestrat.Audit.Appender.{Appender, candidate, append, append_stamped}
use ai_governance_orchestrat.Audit.Appender.Alone.{Appends, quiet, append-ok}
use ai_governance_orchestrat.Audit.Appender.Linking.{Sound, append-Sound}
use ai_governance_orchestrat.Audit.Appender.Wedge.{
  HeadOff, Refused, append_stamped-Refused, append_if_prev-HeadOff,
}

abbrev plain : Hasher
plain = record {
  marshal = λ e. some (str_append e.event_id e.prev_event_hash);
  sha256_hex = λ s. s;
}

abbrev created : Event
created = record zero_event {
  event_id = "evt_1";
  event_type = "session.created";
  session_id = "s";
  event_hash = "sha256:evt_1";
  recorded_at = 5_000_000_000;
}

abbrev confirmed : Event
confirmed = record zero_event {
  event_id = "evt_2";
  event_type = "session.confirmed";
  session_id = "s";
  prev_event_hash = "sha256:evt_1";
  event_hash = "sha256:evt_2sha256:evt_1";
  recorded_at = 6_000_000_000;
}

abbrev chain : List Event
chain = created ∷ confirmed ∷ []

chain_verifies : verify_chain plain chain ≡ none
unfolding verify_chain canonical_hash
chain_verifies = refl

swapped_chain_fails : verify_chain plain (created ∷ created ∷ []) ≡ some (prev_mismatch 1 "evt_1")
unfolding verify_chain canonical_hash
swapped_chain_fails = refl

verify_chain-eq-none_iff_example : (verify_chain plain chain ≡ none) ↔ Linked plain (reverse chain)
verify_chain-eq-none_iff_example = verify_chain-eq-none_iff plain chain

hashes_differ : ◌≢◌ {A = String} "sha256:evt_2sha256:evt_1" "sha256:evt_1"
hashes_differ = ground (arith, eq_iff "sha256:evt_2sha256:evt_1" "sha256:evt_1")

verify_chain_unique_example : chain ≡ chain
unfolding canonical_hash
verify_chain_unique_example =
    verify_chain_unique plain chain chain
      (
        ((λ e. refl), ((λ e. absurd (hashes_differ e)), tt)),
        (((λ e. absurd (hashes_differ (sym e))), ((λ e. refl), tt)), tt),
      )
      chain_verifies chain_verifies refl

-- A store that holds the first event, and a later one for it.
abbrev held : Sqlite
held = record { rows = created ∷ []; heads = ("s", "sha256:evt_1") ∷ [] }

abbrev quiet_env : Env
quiet_env = record { now = 6_000_000_000; cancelled = false; fault = none }

abbrev both : Sqlite
both = record { rows = created ∷ confirmed ∷ []; heads = ("s", "sha256:evt_2sha256:evt_1") ∷ [] }

held_rows : session_rows "s" held ≡ created ∷ []
unfolding session_rows
held_rows = refl

held_latest : latest_session_hash "s" held ≡ "sha256:evt_1"
unfolding latest_session_hash session_rows
held_latest = refl

held-IsIntact : IsIntact plain "s" held
unfolding verify_chain canonical_hash lookup session_rows latest_session_hash
held-IsIntact = record { accepted = refl; agrees = refl }

in_order : sorts_before 5_000_000_000 6_000_000_000 ≡ true
unfolding sorts_before
in_order = refl

confirmed-SortsLast : SortsLast confirmed (rows_of "s" held.rows)
unfolding rows_of
confirmed-SortsLast = (in_order, tt)

appended_confirmed :
    append_if_prev quiet_env held confirmed "sha256:evt_1" ≡ (appended confirmed, both)
unfolding append_if_prev has_event_id lookup insert latest_session_hash session_rows
appended_confirmed = refl

session_named : ◌≢◌ {A = String} "s" ""
session_named = ground (arith, eq_iff "s" "")

append_if_prev-IsIntact_example :
    ("sha256:evt_1" ≡ latest_session_hash "s" held)
    × (session_rows "s" (append_if_prev quiet_env held confirmed "sha256:evt_1").1
        ≡ session_rows "s" held ++ confirmed ∷ [])
    × IsIntact plain "s" (append_if_prev quiet_env held confirmed "sha256:evt_1").1
unfolding canonical_hash
append_if_prev-IsIntact_example =
    append_if_prev-IsIntact plain quiet_env held confirmed confirmed "sha256:evt_1" session_named
      (λ e. absurd (omega arith)) refl confirmed-SortsLast held-IsIntact
      (ap (λ r. r.0) appended_confirmed)

conflicting : (append_if_prev quiet_env held confirmed "sha256:other").0 ≡ failed prev_differs
unfolding append_if_prev
conflicting = refl

append_if_prev-unchanged_example : (append_if_prev quiet_env held confirmed "sha256:other").1 ≡ held
append_if_prev-unchanged_example =
    append_if_prev-unchanged quiet_env held confirmed "sha256:other" (λ p e. cc (conflicting, e))

-- An appender over that store, and the next event as the caller hands it in.
abbrev appender : Appender
appender = record { store = held; last_hashes = [] }

abbrev request : Event
request = record zero_event {
  event_id = "evt_2";
  event_type = "session.confirmed";
  session_id = "s";
}

abbrev now : ℕ
now = 6_000_000_000

abbrev timed : Event
timed = record request { recorded_at = 6_000_000_000 }

request-SortsLast : SortsLast (stamp now request) (rows_of "s" held.rows)
unfolding rows_of
request-SortsLast = (in_order, tt)

append-Sound_example :
    Sound plain
      (stamp now request)
      (append plain now false (quiet now) (λ k. quiet now) (λ k. quiet now) appender request)
append-Sound_example =
    append-Sound plain now false (quiet now) (λ k. quiet now) (λ k. quiet now) appender request
      session_named (λ e. absurd (omega arith)) (λ s r. r) (λ k s r. r) (λ k s r. r)
      (held-IsIntact, request-SortsLast)

append_stores :
    (append plain now false (quiet now) (λ k. quiet now) (λ k. quiet now) appender request).0
    ≡ ok confirmed
unfolding append canonical_hash append_if_prev has_event_id lookup insert latest_session_hash
    session_rows events_by_session
append_stores = refl

id_given : ◌≢◌ {A = String} "evt_2" ""
id_given = ground (arith, eq_iff "evt_2" "")

type_given : ◌≢◌ {A = String} "session.confirmed" ""
type_given = ground (arith, eq_iff "session.confirmed" "")

append-ok_example :
    Appends held
      (candidate plain (stamp now request) (latest_session_hash "s" held))
      (append plain now false (quiet now) (λ k. quiet now) (λ k. quiet now) appender request)
append-ok_example =
    append-ok plain now appender request (omega arith) id_given type_given session_named
      (unfold has_event_id in refl) held-IsIntact.agrees (unfold lookup in inl refl)

whole_second-sorts_last_example :
    (sorts_before (5 * second) (5 * second + 250_000_000) ≡ false)
    × (sorts_before (5 * second + 250_000_000) (5 * second) ≡ true)
whole_second-sorts_last_example = whole_second-sorts_last 5 250_000_000 (omega arith) (omega arith)

-- The second event of the session, a quarter of a second after the first.
abbrev soon : Event
soon = record confirmed { recorded_at = 5_250_000_000 }

abbrev apart : Sqlite
apart = record { rows = created ∷ soon ∷ []; heads = ("s", "sha256:evt_2sha256:evt_1") ∷ [] }

appended_soon : append_if_prev quiet_env held soon "sha256:evt_1" ≡ (appended soon, apart)
unfolding append_if_prev has_event_id lookup insert latest_session_hash session_rows
appended_soon = refl

append_if_prev-HeadOff_example : HeadOff "s" (append_if_prev quiet_env held soon "sha256:evt_1").1
append_if_prev-HeadOff_example =
    append_if_prev-HeadOff quiet_env held created soon soon "sha256:evt_1" 5 250_000_000
      (omega arith) (omega arith) refl refl session_named hashes_differ (unfold rows_of in refl)
      (ap (λ r. r.0) appended_soon)

apart_latest : latest_session_hash "s" apart ≡ "sha256:evt_1"
unfolding latest_session_hash session_rows sorts_before
apart_latest = refl

apart-HeadOff : HeadOff "s" apart
apart-HeadOff =
    ("sha256:evt_2sha256:evt_1", unfold lookup in refl, λ e. hashes_differ (e ∙ apart_latest))

abbrev restarted : Appender
restarted = record { store = apart; last_hashes = [] }

abbrev third : Event
third = record timed { event_id = "evt_3" }

append_stamped-Refused_example :
    Refused apart
      (append_stamped plain (quiet now) (λ k. quiet now) (λ k. quiet now) restarted third)
append_stamped-Refused_example =
    append_stamped-Refused plain (quiet now) (λ k. quiet now) (λ k. quiet now) restarted third
      session_named (λ s. refl) (λ k s. refl) (λ k s. refl) (unfold lookup in refl) apart-HeadOff

append_if_prev_twice : (append_if_prev quiet_env both confirmed "sha256:evt_1").0 ≡ not_appended
unfolding append_if_prev lookup insert latest_session_hash session_rows
append_if_prev_twice = refl
