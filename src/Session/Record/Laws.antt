-- ===== src/Session/Record/Laws.antt =====
-- The session store's calls (governance/session_store.go) by what they do to each session.
use ai_governance_orchestrat.Prelude.Dict.{lookup, insert, lookup-insert, lookup-insert_self}
use ai_governance_orchestrat.Prelude.{
  String, Bool, true, false, not, Option, none, some, ◌≡◌, ◌≢◌, refl, sym, ap, ◌∙◌, arith, eq_iff,
  ◌==◌, if◌then◌else◌, Bool-cases, inl, inr,
}
use ai_governance_orchestrat.Session.Record.{
  SessionRecord, Sessions, StoreError, invalid_transition, change, with_status, change_row,
  swap_row, compare_and_swap_status, update_status,
}

-- A successful swap found the expected status, and the session has the new one; the other sessions
-- are as they were.
pub compare_and_swap_status-ok :
    (broken : Bool) (id from to : String) (sessions : Sessions)
    → (compare_and_swap_status broken id from to sessions).0 ≡ none
    → (rec : SessionRecord) × (lookup id sessions ≡ some rec)
      × (rec.status ≡ from)
      × ((compare_and_swap_status broken id from to sessions).1
          ≡ insert id (with_status to rec) sessions)
unfolding compare_and_swap_status
compare_and_swap_status-ok true id from to sessions h = absurd (cc)
compare_and_swap_status-ok false id from to sessions h = swapped (lookup id sessions) refl h
  where
    swapped :
        (o : Option SessionRecord)
        → lookup id sessions ≡ o
        → (swap_row id from to sessions o).0 ≡ none
        → (rec : SessionRecord) × (lookup id sessions ≡ some rec)
          × (rec.status ≡ from)
          × ((swap_row id from to sessions (lookup id sessions)).1
              ≡ insert id (with_status to rec) sessions)
    swapped none found e = absurd (cc)
    swapped (some rec) found e = elim (Bool-cases (rec.status == from)) [
      | inl same ↦ (rec, found, (eq_iff rec.status from).0 same, rw (found, same) refl)
      | inr other ↦ absurd (ground arith)
    ]

-- A key that is given a value was there, or it is the new one.
insert-missing :
    (key other : String) (rec old : SessionRecord) (sessions : Sessions)
    → lookup key sessions ≡ some old
    → lookup other sessions ≡ none
    → lookup other (insert key rec sessions) ≡ none
insert-missing key other rec old sessions found missing =
    rw lookup-insert (elim (Bool-cases (key == other)) [
      | inl same ↦ absurd (
          some-ne-none
            (sym found ∙ ap (λ k. lookup k sessions) ((eq_iff key other).0 same) ∙ missing))
      | inr differs ↦ rw differs missing
    ])
  where
    some-ne-none : some old ≢ none
    some-ne-none e = cc

pub change-missing :
    (broken : Bool) (id : String) (f : SessionRecord → SessionRecord) (sessions : Sessions)
    (other : String)
    → lookup other sessions ≡ none
    → lookup other (change broken id f sessions).1 ≡ none
unfolding change
change-missing true id f sessions other missing = missing
change-missing false id f sessions other missing = changed (lookup id sessions) refl
  where
    changed :
        (o : Option SessionRecord)
        → lookup id sessions ≡ o
        → lookup other (change_row id f sessions o).1 ≡ none
    changed none e = missing
    changed (some rec) e = insert-missing id other (f rec) rec sessions e missing

pub swap-missing :
    (broken : Bool) (id from to : String) (sessions : Sessions) (other : String)
    → lookup other sessions ≡ none
    → lookup other (compare_and_swap_status broken id from to sessions).1 ≡ none
unfolding compare_and_swap_status
swap-missing true id from to sessions other missing = missing
swap-missing false id from to sessions other missing = swapped (lookup id sessions) refl
  where
    swapped :
        (o : Option SessionRecord)
        → lookup id sessions ≡ o
        → lookup other (swap_row id from to sessions o).1 ≡ none
    swapped none e = missing
    swapped (some rec) e =
        elim (rec.status == from)
          as (λ b.
            lookup other
              (if◌then◌else◌ {A = Option StoreError × Sessions} (not b)
                (some (invalid_transition from rec.status), sessions)
                (none, insert id (with_status to rec) sessions)).1
            ≡ none) [
              | true ↦ insert-missing id other (with_status to rec) rec sessions e missing
              | false ↦ missing
            ]

-- A swap from the status that the session has goes through.
pub compare_and_swap_status-swaps :
    (id from to : String) (rec : SessionRecord) (sessions : Sessions)
    → lookup id sessions ≡ some rec
    → rec.status ≡ from
    → compare_and_swap_status false id from to sessions
      ≡ (none, insert id (with_status to rec) sessions)
unfolding compare_and_swap_status swap_row
compare_and_swap_status-swaps id from to rec sessions found same =
    ap (swap_row id from to sessions) found
    ∙ ap
        (λ b.
          if◌then◌else◌ {A = Option StoreError × Sessions} (not b)
            (some (invalid_transition from rec.status), sessions)
            (none, insert id (with_status to rec) sessions))
        ((eq_iff rec.status from).1 same)

-- A stored session takes the status it is given.
pub update_status-found :
    (id status : String) (sessions : Sessions)
    → lookup id sessions ≢ none
    → (rec : SessionRecord) × (lookup id (update_status false id status sessions).1 ≡ some rec)
      × (rec.status ≡ status)
unfolding update_status change
update_status-found id status sessions found = by_row (lookup id sessions) found
  where
    by_row :
        (o : Option SessionRecord)
        → o ≢ none
        → (rec : SessionRecord) × (lookup id (change_row id (with_status status) sessions o).1
            ≡ some rec)
          × (rec.status ≡ status)
    by_row none h = absurd (h refl)
    by_row (some rec) h =
        (with_status status rec, lookup-insert_self id (with_status status rec) sessions, refl)
