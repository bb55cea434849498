-- ===== src/Audit/Sqlite/Order.antt =====
-- The query order, for a row that sorts after all others.
use mathlib.Core.List.{reverse, reverse-cons}
use ai_governance_orchestrat.Prelude.{
  String, List, [], ◌∷◌, ◌++◌, ◌≡◌, refl, sym, ap, ◌∙◌, ◌==◌, true, false, eq_iff, arith, get_last?,
  All, if◌then◌else◌, Bool-cases, inl, inr,
}
use ai_governance_orchestrat.Audit.Event.{Event}
use ai_governance_orchestrat.Audit.Timestamp.{sorts_before}
use ai_governance_orchestrat.Audit.Chain.Linked.{head_hash}
use ai_governance_orchestrat.Audit.Sqlite.{
  Sqlite, rows_of, place, sort_onto, session_rows, last_hash, latest_session_hash,
}

-- Every row of the list sorts no later than `e`.
abbrev pub SortsLast : Event → List Event → Type 0
SortsLast e rows = All (λ x. sorts_before x.recorded_at e.recorded_at ≡ true) rows

place_last : (e : Event) (rows : List Event) → SortsLast e rows → place e rows ≡ rows ++ e ∷ []
unfolding place
place_last e [] h = refl
place_last e (x ∷ xs) h = ground (arith, place_last e xs h.1)

All-place :
    (P : Event → Type 0) (e : Event) (rows : List Event) → P e → All P rows → All P (place e rows)
unfolding place
All-place P e [] p h = (p, tt)
All-place P e (x ∷ xs) p h = elim (Bool-cases (sorts_before x.recorded_at e.recorded_at)) [
  | inl yes_before ↦ rw yes_before (h.0, All-place P e xs p h.1)
  | inr later ↦ rw later (p, h)
]

All-sort_onto :
    (P : Event → Type 0) (sorted rows : List Event)
    → All P sorted
    → All P rows
    → All P (sort_onto sorted rows)
unfolding sort_onto
All-sort_onto P sorted [] hs hr = hs
All-sort_onto P sorted (e ∷ rows) hs hr =
    All-sort_onto P (place e sorted) rows (All-place P e sorted hr.0 hs) hr.1

sort_onto-append :
    (sorted rows : List Event) (e : Event)
    → sort_onto sorted (rows ++ e ∷ []) ≡ place e (sort_onto sorted rows)
unfolding sort_onto
sort_onto-append sorted [] e = refl
sort_onto-append sorted (x ∷ rows) e = sort_onto-append (place x sorted) rows e

pub rows_of-append :
    (session : String) (rows : List Event) (e : Event)
    → rows_of session (rows ++ e ∷ [])
      ≡ (if e.session_id == session then rows_of session rows ++ e ∷ [] else rows_of session rows)
unfolding rows_of
rows_of-append session [] e = ground arith
rows_of-append session (x ∷ rows) e = ground (arith, rows_of-append session rows e)

pub session_rows-append :
    (session : String) (s : Sqlite) (heads : List (String × String)) (e : Event)
    → (e.session_id == session) ≡ true
    → SortsLast e (rows_of session s.rows)
    → session_rows session (record { rows = s.rows ++ e ∷ []; heads = heads })
      ≡ session_rows session s ++ e ∷ []
unfolding session_rows
session_rows-append session s heads e mine h =
    rw (rows_of-append session s.rows e, mine, sort_onto-append [] (rows_of session s.rows) e)
      (place_last e _ (All-sort_onto _ [] (rows_of session s.rows) tt h))

-- The hash that the queries give for the newest row is the head of the chain.
last_hash-cons :
    (e x : Event) (rows : List Event)
    → last_hash (get_last? (e ∷ x ∷ rows)) ≡ last_hash (get_last? (x ∷ rows))
last_hash-cons e x rows = refl

head_hash-append :
    (older : List Event) (x e : Event)
    → head_hash ((older ++ x ∷ []) ++ e ∷ []) ≡ head_hash (older ++ x ∷ [])
head_hash-append [] x e = refl
head_hash-append (y ∷ older) x e = refl

head_hash-reverse : (rows : List Event) → head_hash (reverse rows) ≡ last_hash (get_last? rows)
head_hash-reverse [] = refl
head_hash-reverse (e ∷ []) = refl
head_hash-reverse (e ∷ x ∷ rows) = rw reverse-cons (
    rw reverse-cons (
      head_hash-append (reverse rows) x e
      ∙ ap head_hash (sym (reverse-cons x rows))
      ∙ head_hash-reverse (x ∷ rows)))

pub latest-eq-head_hash :
    (session : String) (s : Sqlite)
    → latest_session_hash session s ≡ head_hash (reverse (session_rows session s))
unfolding latest_session_hash
latest-eq-head_hash session s = sym (head_hash-reverse (session_rows session s))

-- Two rows of a session, the later one of which sorts first, come out in the wrong order.
pub latest-misplaced :
    (session : String) (s t : Sqlite) (x e : Event)
    → rows_of session s.rows ≡ x ∷ []
    → t.rows ≡ s.rows ++ e ∷ []
    → e.session_id ≡ session
    → sorts_before x.recorded_at e.recorded_at ≡ false
    → latest_session_hash session t ≡ x.event_hash
unfolding latest_session_hash session_rows
latest-misplaced session s t x e one more mine late =
    rw (more, rows_of-append session s.rows e, (eq_iff e.session_id session).1 mine, one) (rw late)
