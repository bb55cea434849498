-- ===== src/Policy/ToolLoop/Runs.antt =====
-- ToolLoopCounter (policyengine/tool_loop.go) over streams of events.
use mathlib.Core.List.{reverse, reverse_aux}
use ai_governance_orchestrat.Prelude.{
  ℕ, suc, ◌+◌, ◌<◌, String, false, List, [], ◌∷◌, ◌≡◌, refl, ◌∙◌, arith, ltb, if◌then◌else◌,
  Bool-cases, inl, inr,
}
use ai_governance_orchestrat.Policy.ToolLoop.{
  ToolLoopCounter, new_tool_loop_counter, is_call, is_output, observe, observe_all,
}

-- The calls since the last output, read from the newest event backwards.
abbrev pub calls_since_output : List String → ℕ
calls_since_output [] = 0
calls_since_output (event ∷ older) =
    let n = calls_since_output older in
    if is_call event then suc n else if is_output event then 0 else n

observe-tracks :
    (c : ToolLoopCounter) (older : List String) (event : String)
    → 0 < c.limit
    → c.consecutive ≡ calls_since_output older
    → ((observe c event).0.consecutive ≡ calls_since_output (event ∷ older))
      × ((observe c event).0.limit ≡ c.limit)
unfolding observe
observe-tracks c older event pos same = elim (Bool-cases (is_call event)) [
  | inl call ↦ rw call (ground arith)
  | inr no_call ↦ elim (Bool-cases (is_output event)) [
    | inl out ↦ rw (no_call, out) (ground arith)
    | inr no_out ↦ rw (no_call, no_out) (ground arith)
  ]
]

observe_all-tracks :
    (c : ToolLoopCounter) (older events : List String)
    → 0 < c.limit
    → c.consecutive ≡ calls_since_output older
    → ((observe_all c events).consecutive ≡ calls_since_output (reverse_aux events older))
      × ((observe_all c events).limit ≡ c.limit)
unfolding observe_all
observe_all-tracks c older [] pos same = (same, refl)
observe_all-tracks c older (event ∷ events) pos same =
    let (tracked, kept) = observe-tracks c older event pos same in
    let (all_tracked, all_kept) =
      observe_all-tracks (observe c event).0 (event ∷ older) events (omega arith) tracked in
    (all_tracked, all_kept ∙ kept)

-- After any stream of events a counter with a positive limit reports a further event exactly if it
-- is a tool call and, with it, more than `limit` calls have been made since the agent's last
-- output.
pub observe_exact :
    (limit : ℕ) (events : List String) (event : String)
    → 0 < limit
    → (observe (observe_all (new_tool_loop_counter limit) events) event).1
      ≡ (if is_call event then ltb limit (calls_since_output (reverse events) + 1) else false)
unfolding observe new_tool_loop_counter
observe_exact limit events event pos =
    let (tracked, kept) =
      observe_all-tracks (record { limit = limit; consecutive = 0 }) [] events pos refl in
    ground arith
