-- ===== src/Audit/Chain.antt =====
-- VerifyChain of ai-agent-orch/internal/audit/hashchain.go.
pub mod Linked
pub mod Tamper
use ai_governance_orchestrat.Prelude.{
  ℕ, zero, suc, ◌+◌, String, Bool, not, Option, none, some, List, [], ◌∷◌, ◌==◌, if◌then◌else◌,
}
use ai_governance_orchestrat.Audit.Event.{Event, Hasher, canonical_hash}

-- The errors of VerifyChain, each with the index and the event's id that its text names.
pub data ChainFault : Type 0 where
  hash_mismatch : ℕ → String → ChainFault
  first_has_prev : ℕ → String → ChainFault
  prev_mismatch : ℕ → String → ChainFault

-- The body of the loop for event `i`, whose predecessor's hash is `prev_hash`.
check_event : Hasher → ℕ → String → Event → Option ChainFault
check_event h i prev_hash event =
    if not (event.event_hash == canonical_hash h event)
    then some (hash_mismatch i event.event_id)
    else check_link i
  where
    check_link : ℕ → Option ChainFault
    check_link zero =
        if not (event.prev_event_hash == "") then some (first_has_prev 0 event.event_id) else none
    check_link (suc j) =
        if not (event.prev_event_hash == prev_hash)
        then some (prev_mismatch (suc j) event.event_id)
        else none

-- The loop: the first fault ends it.
verify_from : Hasher → ℕ → String → List Event → Option ChainFault
unfolding check_event
verify_from h i prev_hash [] = none
verify_from h i prev_hash (event ∷ events) =
    let rest = verify_from h (suc i) event.event_hash events in
    elim (check_event h i prev_hash event) [ some fault ↦ some fault | none ↦ rest ]

unfoldable pub verify_chain : Hasher → List Event → Option ChainFault
unfolding verify_from
verify_chain h events = verify_from h 0 "" events
