-- ===== src/Stream/Replay.antt =====
-- Histories and closed sessions of the EventStore (governance/stream.go), over runs of calls.
use ai_governance_orchestrat.Prelude.Dict.{lookup, insert, remove, lookup-insert, lookup-remove}
use ai_governance_orchestrat.Prelude.{
  ℕ, zero, suc, ◌-◌, ◌≤◌, ◌<◌, String, Bool, true, false, some, List, [], ◌∷◌, ◌++◌, ◌≡◌, refl,
  subst, eq_refl, arith, eq_iff, ◌==◌, ltb, if◌then◌else◌, length, length-drop, drop, get_last?,
  Bool-cases, inl, inr,
}
use ai_governance_orchestrat.Policy.Engine.Spec.{In}
use ai_governance_orchestrat.Stream.{
  SessionEvent, EventStore, or_nil, or_false, history_of, is_closed, last_event_is_done, recent,
  append_history, forget, evict, finish,
}

get_last?-drop :
    (n : ℕ) (xs : List SessionEvent) → n < length xs → get_last? (drop n xs) ≡ get_last? xs
get_last?-drop zero xs h = refl
get_last?-drop (suc n) [] h = absurd (omega arith)
get_last?-drop (suc n) (x ∷ []) h = absurd (omega arith)
get_last?-drop (suc n) (x ∷ y ∷ xs) h = get_last?-drop n (y ∷ xs) (omega arith)

get_last?-append : (xs : List SessionEvent) (e : SessionEvent) → get_last? (xs ++ e ∷ []) ≡ some e
get_last?-append [] e = refl
get_last?-append (x ∷ []) e = refl
get_last?-append (x ∷ y ∷ xs) e = get_last?-append (y ∷ xs) e

length-recent : (xs : List SessionEvent) → length (recent xs) ≤ 128
unfolding recent
length-recent xs = elim (Bool-cases (ltb 128 (length xs))) [
  | inl b ↦ rw b (omega (arith, length-drop (length xs - 128) xs))
  | inr b ↦ rw b (ground arith)
]

get_last?-recent : (xs : List SessionEvent) → get_last? (recent xs) ≡ get_last? xs
unfolding recent
get_last?-recent xs = elim (Bool-cases (ltb 128 (length xs))) [
  | inl b ↦ rw b (get_last?-drop (length xs - 128) xs (ground arith))
  | inr b ↦ rw b refl
]

-- Every history is short; closed sessions are listed, and their histories end.
abbrev pub Short : List (String × List SessionEvent) → Type 0
Short history = (id : String) → length (or_nil (lookup id history)) ≤ 128

abbrev pub Listed : List (String × Bool) → List String → Type 0
Listed closed order = (id : String) → or_false (lookup id closed) ≡ true → In id order

abbrev pub Ended : List (String × List SessionEvent) → List (String × Bool) → Type 0
Ended history closed =
    (id : String)
    → or_false (lookup id closed) ≡ true
    → last_event_is_done (or_nil (lookup id history)) ≡ true

pub record IsBounded (s : EventStore) : Type 0 where
  pub short : (id : String) → length (history_of s id) ≤ 128
  pub listed : (id : String) → is_closed s id ≡ true → In id s.closed_order
  pub ended : (id : String) → is_closed s id ≡ true → last_event_is_done (history_of s id) ≡ true
  pub order : length s.closed_order ≤ 256

pub Short-insert :
    (history : List (String × List SessionEvent)) (id : String) (xs : List SessionEvent)
    → Short history
    → Short (insert id (recent xs) history)
Short-insert history id xs h j = elim (Bool-cases (id == j)) [
  | inl e ↦ rw (lookup-insert id j (recent xs) history, e) (length-recent xs)
  | inr e ↦ rw (lookup-insert id j (recent xs) history, e) (h j)
]

pub Short-remove :
    (history : List (String × List SessionEvent)) (id : String)
    → Short history
    → Short (remove id history)
Short-remove history id h j = elim (Bool-cases (id == j)) [
  | inl e ↦ rw (lookup-remove id j history, e) (omega arith)
  | inr e ↦ rw (lookup-remove id j history, e) (h j)
]

pub closed_after_remove :
    (closed : List (String × Bool)) (id j : String)
    → or_false (lookup j (remove id closed)) ≡ true
    → ((id == j) ≡ false) × (or_false (lookup j closed) ≡ true)
closed_after_remove closed id j h = elim (Bool-cases (id == j)) [
  | inl e ↦ absurd (ground (arith, lookup-remove id j closed))
  | inr e ↦ (e, ground (arith, lookup-remove id j closed))
]

pub Ended-remove :
    (history : List (String × List SessionEvent)) (closed : List (String × Bool)) (id : String)
    → Ended history closed
    → Ended (remove id history) (remove id closed)
Ended-remove history closed id h j c =
    let (e, was) = closed_after_remove closed id j c in rw (lookup-remove id j history, e) (h j was)

pub Ended-insert :
    (history : List (String × List SessionEvent)) (closed : List (String × Bool)) (id : String)
    (xs : List SessionEvent)
    → or_false (lookup id closed) ≡ false
    → Ended history closed
    → Ended (insert id xs history) closed
Ended-insert history closed id xs open_ h j c = elim (Bool-cases (id == j)) [
  | inl e ↦ absurd (ground (arith, eq_iff id j))
  | inr e ↦ rw (lookup-insert id j xs history, e) (h j c)
]

pub Ended-finish :
    (s : EventStore) (id : String) (event : SessionEvent)
    → event.type ≡ "done"
    → Ended s.history s.closed
    → Ended (finish s id event).history (insert id true s.closed)
unfolding append_history
Ended-finish s id event d h j c = elim (Bool-cases (last_event_is_done (history_of s id))) [
  | inl was ↦ elim (Bool-cases (id == j)) [
    | inl e ↦
        rw was (subst (λ i. last_event_is_done (history_of s i) ≡ true) ((eq_iff id j).0 e) was)
    | inr e ↦ rw was (h j (ground (arith, lookup-insert id j true s.closed)))
  ]
  | inr new ↦ elim (Bool-cases (id == j)) [
    | inl e ↦
        rw
          (
            new,
            lookup-insert id j (recent (history_of s id ++ event ∷ [])) s.history,
            e,
            get_last?-recent (history_of s id ++ event ∷ []),
            get_last?-append (history_of s id) event,
            d,
          )
          (eq_refl "done")
    | inr e ↦
        rw (new, lookup-insert id j (recent (history_of s id ++ event ∷ [])) s.history, e)
          (h j (ground (arith, lookup-insert id j true s.closed)))
  ]
]

pub Short-finish :
    (s : EventStore) (id : String) (event : SessionEvent)
    → Short s.history
    → Short (finish s id event).history
unfolding append_history
Short-finish s id event h = elim (Bool-cases (last_event_is_done (history_of s id))) [
  | inl was ↦ rw was h
  | inr new ↦ rw new (Short-insert s.history id (history_of s id ++ event ∷ []) h)
]

In-append_left : (x : String) (xs ys : List String) → In x xs → In x (xs ++ ys)
In-append_left x [] ys m = elim m [ ]
In-append_left x (y ∷ xs) ys (inl e) = inl e
In-append_left x (y ∷ xs) ys (inr m) = inr (In-append_left x xs ys m)

In-append_last : (x : String) (xs : List String) → In x (xs ++ x ∷ [])
In-append_last x [] = inl refl
In-append_last x (y ∷ xs) = inr (In-append_last x xs)

pub Listed-insert :
    (closed : List (String × Bool)) (order : List String) (id : String)
    → Listed closed order
    → Listed (insert id true closed) (order ++ id ∷ [])
Listed-insert closed order id h j c = elim (Bool-cases (id == j)) [
  | inl e ↦ subst (λ i. In i (order ++ id ∷ [])) ((eq_iff id j).0 e) (In-append_last id order)
  | inr e ↦ In-append_left j order (id ∷ []) (h j (ground (arith, lookup-insert id j true closed)))
]

-- A session leaves the order when it leaves the closed ones.
Listed-forget :
    (s : EventStore) (oldest : String) (order : List String)
    → Listed s.closed (oldest ∷ order)
    → Listed (forget s oldest).closed order
Listed-forget s oldest order h j c = elim (Bool-cases (is_closed s oldest)) [
  | inl b ↦
      let (e, was) = closed_after_remove s.closed oldest j (
        subst (λ x. or_false (lookup j (if x then remove oldest s.closed else s.closed)) ≡ true) b
          (ground arith)) in
      elim (h j was) [ inl same ↦ absurd (ground (arith, eq_iff oldest j)) | inr m ↦ m ]
  | inr b ↦ elim (h j (ground arith)) [ inl same ↦ absurd (ground arith) | inr m ↦ m ]
]

Short-forget :
    (s : EventStore) (oldest : String) → Short s.history → Short (forget s oldest).history
Short-forget s oldest h = elim (Bool-cases (is_closed s oldest)) [
  | inl b ↦ rw b (Short-remove s.history oldest h)
  | inr b ↦ rw b h
]

Ended-forget :
    (s : EventStore) (oldest : String)
    → Ended s.history s.closed
    → Ended (forget s oldest).history (forget s oldest).closed
Ended-forget s oldest h = elim (Bool-cases (is_closed s oldest)) [
  | inl b ↦ rw b (Ended-remove s.history s.closed oldest h)
  | inr b ↦ rw b h
]

pub evict-IsBounded :
    (s : EventStore) (order : List String)
    → Short s.history
    → Listed s.closed order
    → Ended s.history s.closed
    → IsBounded (evict s order)
unfolding evict
evict-IsBounded s [] short listed ended = record {
  short = short;
  listed = listed;
  ended = ended;
  order = omega arith;
}
evict-IsBounded s (oldest ∷ order) short listed ended =
    elim (Bool-cases (ltb 256 (length (oldest ∷ order)))) [
      | inl b ↦ rw b (
          evict-IsBounded (forget s oldest) order (Short-forget s oldest short)
            (Listed-forget s oldest order listed) (Ended-forget s oldest ended))
      | inr b ↦
          rw b (record { short = short; listed = listed; ended = ended; order = ground arith })
    ]
