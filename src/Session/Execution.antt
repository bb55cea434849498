-- ===== src/Session/Execution.antt =====
-- SessionExecutor.Run of ai-agent-orch/internal/governance/execution.go, what the goroutine of an
-- execution does with the runtime's events. Each of its calls is numbered from `n` on; the audit
-- events that it appends are not checked for success, as in the code. Durations are left out, and of
-- the reasons that the code formats with a number or an error, the fixed part is kept.
pub mod Fair
pub mod Final
use Prim.Native.String.{◌++◌ as str_append}
use ai_governance_orchestrat.Audit.Event.{Event}
use ai_governance_orchestrat.Policy.ToolLoop.{ToolLoopCounter, new_tool_loop_counter, observe}
use ai_governance_orchestrat.Prelude.Text.{codes, contains}
use ai_governance_orchestrat.Prelude.{
  ℕ, ◌+◌, String, Bool, true, false, not, ◌&&◌, ◌||◌, Option, none, some, List, [], ◌∷◌, ◌==◌,
  if◌then◌else◌, length,
}
use ai_governance_orchestrat.Session.Auth.{TrustMetadata}
use ai_governance_orchestrat.Session.Gate.{Config, session_event}
use ai_governance_orchestrat.Session.Handlers.{set_session_status, publish_event}
use ai_governance_orchestrat.Session.Patch.{
  Codec, PatchEnvelope, PatchError, Sanitized, safe, failed, store,
}
use ai_governance_orchestrat.Session.Record.{set_runtime_gateway_token_hash}
use ai_governance_orchestrat.Session.Service.{
  Service, Environment, Execution, Handler, pure, write, exchange, ◌>>=◌, ◌>>◌, attempt, append,
}
use ai_governance_orchestrat.Session.Service.Local.{remember_patch, cancel_execution, is_some}
use ai_governance_orchestrat.Stream.{close}

pub record RuntimeEvent : Type 0 where
  pub type : String
  pub payload : String

pub record DispatchResult : Type 0 where
  pub agent : String
  pub events : List RuntimeEvent

-- What encoding/json reads of the runtime's payloads, and the texts of the errors of a patch.
pub record Runtime : Type 0 where
  pub dispatch : Execution → String → Option DispatchResult
  pub codec : Codec
  pub error_text : PatchError → String
  pub patch_id_of : String → String
  pub permission_of : String → String × String
  pub file_write_of : String → String × String × String

pub record Tally : Type 0 where
  pub counter : ToolLoopCounter
  pub event_count : ℕ
  pub patch_count : ℕ
  pub tool_call_count : ℕ

abbrev pub is_tool : String → Bool
is_tool type = type == "tool" || type == "tool_call" || type == "tool_request"

unfoldable pub sanitize_runtime_stream_payload : String → String
sanitize_runtime_stream_payload payload =
    if contains (codes payload) (codes "\"patchId\"")
      && contains (codes payload) (codes "\"files\"")
    then "Patch proposal received."
    else payload

abbrev gateway_trust : TrustMetadata
gateway_trust = record { trust_level = "gateway_enforced"; enforcement_mode = "gateway" }

module _ {Usd : Type 0} (config : Config Usd) (runtime : Runtime) (env : Environment)
    (x : Execution) where
  -- An event of the runtime, whose append may fail unnoticed.
  unfoldable pub runtime_event : ℕ → String → Event
  runtime_event n type =
      session_event (env.new_id n) "" x.session_id type "runtime" x.agent gateway_trust

  unfoldable pub note : ℕ → Event → Handler (Unit {0})
  note n event = append env n event >>= λ written. pure tt

  unfoldable pub publish_error : ℕ → String → Handler (Unit {0})
  publish_error n reason = do
    write env n (publish_event env.now x.session_id "error" reason)
    write env (n + 1) (λ s. record s { events = close env.now s.events x.session_id })

  -- A run that is stopped over one of its events.
  unfoldable pub stop_run : ℕ → String → String → Handler (Option Tally)
  stop_run n type reason = do
    note n (record (runtime_event n type) { reason = reason })
    set_session_status env (n + 1) x.session_id "failed"
    publish_error (n + 2) reason
    pure none

  -- auditPatchProposed
  unfoldable pub note_proposed : ℕ → Option PatchEnvelope → Handler (Unit {0})
  note_proposed n none = pure tt
  note_proposed n (some envelope) = note n (record (runtime_event n "patch.proposed") {
    patch_id = envelope.patch_id;
    patch_buffer_id = envelope.buffer_id;
    patch_file_count = length envelope.files;
  })

  -- A patch that the buffer has answered for.
  unfoldable pub handle_patch : ℕ → Tally → Sanitized → Handler (Option Tally)
  handle_patch n tally (failed problem) =
      stop_run n "patch.rejected" (str_append "patch rejected: " (runtime.error_text problem))
  handle_patch n tally (safe shown) = do
    write env n (remember_patch env.now x.session_id (runtime.patch_id_of shown))
    note_proposed (n + 1) (runtime.codec.parse shown)
    write env (n + 2) (publish_event env.now x.session_id "patch" shown)
    pure (some (record tally { patch_count = tally.patch_count + 1 }))

  -- auditACPPermission
  unfoldable pub note_permission : ℕ → String → Handler (Unit {0})
  note_permission n payload =
      let (tool, option_id) = runtime.permission_of payload in
      note n (record (runtime_event n "runtime.acp.permission") {
        runtime = "opencode_acp";
        mcp_tool_name = tool;
        reason = option_id;
      })

  -- auditACPFileWrite
  unfoldable pub note_file_write : ℕ → String → Handler (Unit {0})
  note_file_write n payload =
      let (path, action, patch_id) = runtime.file_write_of payload in
      note n (record (runtime_event n "runtime.acp.file_write") {
        runtime = "opencode_acp";
        runtime_status = "file_written";
        patch_id = patch_id;
        patch_file_count = 1;
        reason = str_append action (str_append ": " path);
      })

  -- One event, once it is counted and is not stopped by the loop guard.
  unfoldable pub handle_event : ℕ → Tally → RuntimeEvent → Handler (Option Tally)
  handle_event n tally event =
      if event.type == "patch"
      then (exchange env n (λ s.
            let (answer, buffer) =
              store runtime.codec config.matches (env.fails n) env.now x.session_id event.payload
                s.buffer in
            (answer, record s { buffer = buffer }))
          >>= handle_patch (n + 1) tally)
      else if event.type == "stream"
      then (write env n (
            publish_event env.now x.session_id "stream"
              (sanitize_runtime_stream_payload event.payload))
          >> pure (some tally))
      else if event.type == "acp_permission"
      then (note_permission n event.payload >> pure (some tally))
      else if event.type == "acp_file_write"
      then (note_file_write n event.payload >> pure (some tally))
      else if is_tool event.type
      then (write env n (publish_event env.now x.session_id "tool_request" event.payload)
          >> pure (some tally))
      else (write env n (publish_event env.now x.session_id event.type event.payload)
          >> pure (some tally))

  unfoldable pub counted : Tally → RuntimeEvent → Tally
  counted tally event = record tally {
    counter = (observe tally.counter event.type).0;
    event_count = tally.event_count + 1;
    tool_call_count =
        if is_tool event.type then tally.tool_call_count + 1 else tally.tool_call_count;
  }

  unfoldable pub take_event : ℕ → Tally → RuntimeEvent → Handler (Option Tally)
  take_event n tally event =
      if (observe tally.counter event.type).1
      then stop_run n "runtime.denied" "consecutive tool call cap exceeded"
      else handle_event n (counted tally event) event

  unfoldable pub unless_stopped :
      (Tally → Handler (Option Tally)) → Option Tally → Handler (Option Tally)
  unless_stopped rest none = pure none
  unless_stopped rest (some tally) = rest tally

  -- The loop over the events, five calls for each; none is a run that was stopped.
  unfoldable pub take_events : ℕ → List RuntimeEvent → Tally → Handler (Option Tally)
  take_events n [] tally = pure (some tally)
  take_events n (event ∷ events) tally =
      take_event n tally event >>= unless_stopped (take_events (n + 5) events)

  -- The end of a run that was not stopped.
  unfoldable pub finish_run : String → Option Tally → Handler (Unit {0})
  finish_run agent none = pure tt
  finish_run agent (some tally) = do
    write env 6
        (publish_event env.now x.session_id "done" (str_append "execution finished for " agent))
    write env 7 (λ s. record s { events = close env.now s.events x.session_id })
    set_session_status env 8 x.session_id "done"
    note 9 (record (runtime_event 9 "runtime.done") {
      runtime = "opencode_acp";
      runtime_status = "done";
      event_count = tally.event_count;
      patch_count = tally.patch_count;
      tool_call_count = tally.tool_call_count;
    })

  unfoldable pub dispatched : Option DispatchResult → Handler (Unit {0})
  dispatched none = do
    set_session_status env 4 x.session_id "failed"
    note 5 (record (runtime_event 5 "runtime.failed") {
      runtime = "opencode_acp";
      runtime_status = "failed";
      reason = "dispatch failed";
    })
    publish_error 6 "dispatch failed"
  dispatched (some result) = do
    ended ← take_events 12 result.events (record {
      counter = new_tool_loop_counter config.tool_loop_max;
      event_count = 0;
      patch_count = 0;
      tool_call_count = 0;
    })
    finish_run result.agent ended

  -- mintRuntimeGatewayToken, with the token where its hash could be stored.
  unfoldable pub mint_token : Handler String
  mint_token = do
    problem ← attempt env 2 λ broken.
        set_runtime_gateway_token_hash broken x.session_id (config.sha256_hex (env.new_id 2))
    pure (if is_some problem then "" else env.new_id 2)

  -- Run, and the deferred cancelExecution of RunAsync's goroutine after it.
  unfoldable pub run_execution : Handler (Unit {0})
  run_execution = do
    write env 0 (
        publish_event env.now x.session_id "stream"
          (str_append "Starting execution for agent " (str_append x.agent "...")))
    note 1 (record (runtime_event 1 "runtime.started") {
      runtime = "opencode_acp";
      runtime_status = "running";
    })
    token ← mint_token
    dispatched (runtime.dispatch x token)
    write env 11 (cancel_execution config.local_state_ttl env.now x.session_id)
