-- ===== src/Stream/Runs.antt =====
-- Calls of the EventStore (governance/stream.go), one by one and in runs.
use ai_governance_orchestrat.Prelude.Dict.{lookup}
use ai_governance_orchestrat.Prelude.{
  ℕ, ◌≤◌, String, false, List, [], ◌∷◌, ◌++◌, ◌≡◌, refl, arith, eq_iff, ◌==◌, length, Bool-cases,
  inl, inr,
}
use ai_governance_orchestrat.Policy.Engine.Spec.{In}
use ai_governance_orchestrat.Stream.{
  SessionEvent, EventStore, new_event_store, history_of, is_closed, recent, append_history,
  subscribe, is_among, channels_of, received, unsubscribe, publish, reopen, drop_first, close_event,
  close,
}
use ai_governance_orchestrat.Stream.Replay.{
  IsBounded, Short-insert, Short-remove, Ended-insert, Ended-remove, Ended-finish, Short-finish,
  Listed-insert, evict-IsBounded, closed_after_remove,
}

close-IsBounded :
    (now : ℕ) (s : EventStore) (id : String) → IsBounded s → IsBounded (close now s id)
unfolding close close_event
close-IsBounded now s id w = elim (Bool-cases (is_closed s id)) [
  | inl b ↦ rw b w
  | inr b ↦
      let event : SessionEvent = record { type = "done"; payload = ""; timestamp = now } in
      rw b (
        evict-IsBounded _ (s.closed_order ++ id ∷ []) (Short-finish s id event w.short)
          (Listed-insert s.closed s.closed_order id w.listed)
          (Ended-finish s id event refl w.ended))
]

publish-IsBounded :
    (s : EventStore) (id : String) (event : SessionEvent)
    → IsBounded s
    → IsBounded (publish s id event)
unfolding publish append_history
publish-IsBounded s id event w = elim (Bool-cases (is_closed s id)) [
  | inl b ↦ rw b w
  | inr b ↦ rw b (record {
    short = Short-insert s.history id (history_of s id ++ event ∷ []) w.short;
    listed = w.listed;
    ended = Ended-insert s.history s.closed id (recent (history_of s id ++ event ∷ [])) b w.ended;
    order = w.order;
  })
]

length-drop_first : (id : String) (xs : List String) → length (drop_first id xs) ≤ length xs
unfolding drop_first
length-drop_first id [] = omega arith
length-drop_first id (x ∷ xs) = ground (arith, length-drop_first id xs)

In-drop_first :
    (id j : String) (xs : List String) → (id == j) ≡ false → In j xs → In j (drop_first id xs)
unfolding drop_first
In-drop_first id j [] e m = elim m [ ]
In-drop_first id j (x ∷ xs) e m = elim (Bool-cases (x == id)) [
  | inl b ↦
      rw b (elim m [ inl same ↦ absurd (ground (arith, eq_iff x id, eq_iff id j)) | inr k ↦ k ])
  | inr b ↦ rw b (elim m [ inl same ↦ inl same | inr k ↦ inr (In-drop_first id j xs e k) ])
]

reopen-IsBounded : (s : EventStore) (id : String) → IsBounded s → IsBounded (reopen s id)
unfolding reopen
reopen-IsBounded s id w = record {
  short = Short-remove s.history id w.short;
  listed = λ j c.
      let (e, was) = closed_after_remove s.closed id j c in
      In-drop_first id j s.closed_order e (w.listed j was);
  ended = Ended-remove s.history s.closed id w.ended;
  order = omega (arith, length-drop_first id s.closed_order, w.order);
}

subscribe-IsBounded : (s : EventStore) (id : String) → IsBounded s → IsBounded (subscribe s id).1
unfolding subscribe
subscribe-IsBounded s id w = elim (Bool-cases (is_closed s id)) [
  | inl b ↦ rw b (record { short = w.short; listed = w.listed; ended = w.ended; order = w.order })
  | inr b ↦ rw b (record { short = w.short; listed = w.listed; ended = w.ended; order = w.order })
]

unsubscribe-IsBounded :
    (s : EventStore) (id : String) (ch : ℕ) → IsBounded s → IsBounded (unsubscribe s id ch)
unfolding unsubscribe
unsubscribe-IsBounded s id ch w = elim (Bool-cases (is_among ch (channels_of s id))) [
  | inl b ↦ rw b (record { short = w.short; listed = w.listed; ended = w.ended; order = w.order })
  | inr b ↦ rw b w
]

-- A call of the store, or a receive by a subscriber, which only changes a channel's buffer.
pub data Op : Type 0 where
  subscribe_op reopen_op : String → Op
  close_op : ℕ → String → Op
  unsubscribe_op : String → ℕ → Op
  publish_op : String → SessionEvent → Op
  receive_op : ℕ → Op

unfoldable pub step : EventStore → Op → EventStore
unfolding received
step s (subscribe_op id) = (subscribe s id).1
step s (reopen_op id) = reopen s id
step s (close_op now id) = close now s id
step s (unsubscribe_op id ch) = unsubscribe s id ch
step s (publish_op id event) = publish s id event
step s (receive_op ch) = received s ch

unfoldable pub run : EventStore → List Op → EventStore
run s [] = s
run s (op ∷ ops) = run (step s op) ops

step-IsBounded : (s : EventStore) (op : Op) → IsBounded s → IsBounded (step s op)
unfolding step
step-IsBounded s (subscribe_op id) w = subscribe-IsBounded s id w
step-IsBounded s (reopen_op id) w = reopen-IsBounded s id w
step-IsBounded s (close_op now id) w = close-IsBounded now s id w
step-IsBounded s (unsubscribe_op id ch) w = unsubscribe-IsBounded s id ch w
step-IsBounded s (publish_op id event) w = publish-IsBounded s id event w
step-IsBounded s (receive_op ch) w = record {
  short = w.short;
  listed = w.listed;
  ended = w.ended;
  order = w.order;
}

run-keeps : (s : EventStore) (ops : List Op) → IsBounded s → IsBounded (run s ops)
unfolding run
run-keeps s [] w = w
run-keeps s (op ∷ ops) w = run-keeps (step s op) ops (step-IsBounded s op w)

-- Whatever calls are made on a new store, no history is longer than 128 events, the sessions marked
-- as closed are among at most 256 in the closed order, and the history of each of them ends in a
-- done event, so that a late subscriber is told of the end.
pub run-IsBounded : (ops : List Op) → IsBounded (run new_event_store ops)
unfolding new_event_store lookup
run-IsBounded ops = run-keeps new_event_store ops (record {
  short = λ id. omega arith;
  listed = λ id c. absurd (cc);
  ended = λ id c. absurd (cc);
  order = omega arith;
})
