-- ===== src/Audit/Chain/Linked.antt =====
-- A chain described from its newest event backwards, without reference to the loop: every event
-- carries its own hash and the hash of the event below it, and the oldest carries no link.
use mathlib.Core.List.{reverse, reverse_aux}
use ai_governance_orchestrat.Prelude.{
  ℕ, zero, suc, String, none, List, [], ◌∷◌, ◌≡◌, refl, ◌↔◌, eq_iff, arith,
}
use ai_governance_orchestrat.Audit.Event.{Event, Hasher, canonical_hash}
use ai_governance_orchestrat.Audit.Chain.{check_event, verify_from, verify_chain}

-- The hash that the next event has to link to.
abbrev pub head_hash : List Event → String
head_hash [] = ""
head_hash (e ∷ older) = e.event_hash

abbrev pub Linked : Hasher → List Event → Type 0
Linked h [] = Unit
Linked h (e ∷ older) =
    (e.event_hash ≡ canonical_hash h e) × (e.prev_event_hash ≡ head_hash older) × Linked h older

-- The loop at index `i` may be entered with the events `seen` (newest first) behind it.
abbrev Entered : ℕ → String → List Event → Type 0
Entered zero prev_hash seen = seen ≡ []
Entered (suc i) prev_hash seen = head_hash seen ≡ prev_hash

check_event-none :
    (h : Hasher) (i : ℕ) (prev_hash : String) (seen : List Event) (e : Event)
    → Entered i prev_hash seen
    → check_event h i prev_hash e ≡ none
    → (e.event_hash ≡ canonical_hash h e) × (e.prev_event_hash ≡ head_hash seen)
unfolding check_event
check_event-none h zero prev_hash seen e at ok =
    ground (arith, eq_iff e.event_hash (canonical_hash h e), eq_iff e.prev_event_hash "")
check_event-none h (suc i) prev_hash seen e at ok =
    ground (arith, eq_iff e.event_hash (canonical_hash h e), eq_iff e.prev_event_hash prev_hash)

none-check_event :
    (h : Hasher) (i : ℕ) (prev_hash : String) (seen : List Event) (e : Event)
    → Entered i prev_hash seen
    → e.event_hash ≡ canonical_hash h e
    → e.prev_event_hash ≡ head_hash seen
    → check_event h i prev_hash e ≡ none
unfolding check_event
none-check_event h zero prev_hash seen e at p q =
    ground (arith, eq_iff e.event_hash (canonical_hash h e), eq_iff e.prev_event_hash "")
none-check_event h (suc i) prev_hash seen e at p q =
    ground (arith, eq_iff e.event_hash (canonical_hash h e), eq_iff e.prev_event_hash prev_hash)

verify_from-Linked :
    (h : Hasher) (i : ℕ) (prev_hash : String) (seen events : List Event)
    → Entered i prev_hash seen
    → Linked h seen
    → verify_from h i prev_hash events ≡ none
    → Linked h (reverse_aux events seen)
unfolding verify_from
verify_from-Linked h i prev_hash seen [] at l ok = l
verify_from-Linked h i prev_hash seen (e ∷ es) at l ok =
    let here : check_event h i prev_hash e ≡ none = ground arith in
    let facts = check_event-none h i prev_hash seen e at here in
    verify_from-Linked h (suc i) e.event_hash (e ∷ seen) es refl (facts.0, facts.1, l)
      (ground (arith, here))

Linked-unwind :
    (h : Hasher) (events seen : List Event) → Linked h (reverse_aux events seen) → Linked h seen
Linked-unwind h [] seen l = l
Linked-unwind h (e ∷ es) seen l = (Linked-unwind h es (e ∷ seen) l).2

Linked-verify_from :
    (h : Hasher) (i : ℕ) (prev_hash : String) (seen events : List Event)
    → Entered i prev_hash seen
    → Linked h (reverse_aux events seen)
    → verify_from h i prev_hash events ≡ none
unfolding verify_from
Linked-verify_from h i prev_hash seen [] at l = refl
Linked-verify_from h i prev_hash seen (e ∷ es) at l =
    let facts = Linked-unwind h es (e ∷ seen) l in
    ground (
      arith,
      none-check_event h i prev_hash seen e at facts.0 facts.1,
      Linked-verify_from h (suc i) e.event_hash (e ∷ seen) es refl l,
    )

-- VerifyChain accepts exactly the lists whose reversal is a linked chain.
pub verify_chain-eq-none_iff :
    (h : Hasher) (events : List Event) → (verify_chain h events ≡ none) ↔ Linked h (reverse events)
unfolding verify_chain
verify_chain-eq-none_iff h events =
    (verify_from-Linked h 0 "" [] events refl tt, Linked-verify_from h 0 "" [] events refl)
