-- ===== src/Tests/Stream.antt =====
-- A session's stream: two events, its end, and a late subscriber.
use ai_governance_orchestrat.Prelude.Dict.{lookup, insert, remove}
use ai_governance_orchestrat.Prelude.{false, List, [], ◌∷◌, ◌≡◌, refl}
use ai_governance_orchestrat.Stream.{
  SessionEvent, new_event_store, recent, subscribe, publish, close,
}
use ai_governance_orchestrat.Stream.Replay.{IsBounded}
use ai_governance_orchestrat.Stream.Runs.{Op, publish_op, close_op, step, run, run-IsBounded}

abbrev routed : SessionEvent
routed = record { type = "router"; payload = "code-review"; timestamp = 1 }

abbrev streamed : SessionEvent
streamed = record { type = "stream"; payload = "hello"; timestamp = 2 }

abbrev session : List Op
session =
    publish_op "s" routed ∷ publish_op "s" streamed ∷ close_op 3 "s" ∷ publish_op "s" streamed ∷ []

abbrev ended : List SessionEvent
ended = routed ∷ streamed ∷ record { type = "done"; payload = ""; timestamp = 3 } ∷ []

late_subscriber :
    (subscribe (run new_event_store session) "s").1.hub.channels 0
    ≡ record { capacity = 64; buffer = ended; is_open = false }
unfolding run step new_event_store publish close subscribe recent lookup insert remove
late_subscriber = refl

run-IsBounded_example : IsBounded (run new_event_store session)
run-IsBounded_example = run-IsBounded session
