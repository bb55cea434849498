-- ===== src/Lib.antt =====
-- A model of the core of the governance orchestrator, ai-agent-orch, and its theorems.
--
-- The program stands between a person's prompt and an agent: the Governance Shell takes a session,
-- the policy engine decides whether the action may go on, the orchestrator routes it to a
-- specialist, and every step is written to an audit log whose events form a hash chain for each
-- session. Compositions run two specialists in sequence with a human gate between them.
--
-- Audit models ai-agent-orch/internal/audit.
--   Audit.Event has the event (store.go), canonicalHash and the stamp of the time. The JSON form and
--   the digest are arguments, the record `Hasher`.
--   Audit.Chain is VerifyChain (hashchain.go); Audit.Chain.Linked and Audit.Chain.Tamper read it as a
--   linked chain.
--   Audit.Timestamp is the text of recorded_at and its order, which the queries sort by.
--   Audit.Sqlite is SQLiteStore (sqlite.go): the rows and the heads table, insertEvent,
--   EventsBySession, latestSessionHashTx and AppendIfPrev. An `Env` says what a call meets outside
--   the program: the clock, a cancelled context, a statement that fails.
--   Audit.Appender is ChainAppender.Append: the cache of heads and the loop of three attempts. Between
--   the statements other processes may change the database, by any function; `Moment` carries it.
-- Policy models ai-agent-orch/internal/policyengine.
--   Policy.Classification and Policy.Secrets are classification.go; whether a regular expression
--   matches is an argument.
--   Policy.Engine is NativeEngine (engine.go); amounts are a type with an order.
--   Policy.Allowlist is command_allowlist.go, Policy.ToolLoop is tool_loop.go.
-- Composition models ai-agent-orch/internal/composition/composition.go, and Composition.Handlers the
--   handlers of ai-agent-orch/internal/governance/composition_handlers.go over it.
-- Routing models how a prompt finds its agent: Routing.Classifier is
--   ai-agent-orch/internal/classifier/classifier.go, whose assistant is an argument, and
--   Routing.Router is ai-agent-orch/internal/orchestrator/router.go with HasAgent of
--   ai-agent-orch/internal/catalog/validator.go; what the validation of the catalog reports at a
--   time is an argument.
-- Stream models the EventStore of ai-agent-orch/internal/governance/stream.go: histories, closed
--   sessions and the channels of the subscribers, whose buffers are shared between the two.
-- Session models the sessions of ai-agent-orch/internal/governance, from the request that creates one
--   to its execution.
--   Session.Record is the table of session_store.go; Session.KillSwitch is MemoryKillSwitch (admin.go),
--   SQLiteKillSwitch (killswitch_store.go) and the two tests of session_policy.go; Session.Auth is
--   session_auth.go with httpauth/bearer.go; Session.Request is the creation request and its checks
--   (sessions.go) and extractSessionID (messages.go); Session.Patch is PatchBuffer
--   (patch_buffer.go).
--   Session.Service is the state of SessionService. A handler is a sequence of numbered calls, each
--   one step under its lock or transaction; an `Environment` says, for each number, whether the call
--   fails and what the other requests and executions have done before it. Session.Service.Local is
--   session_local_state.go; Session.Service.Rules has the rules of proof, triples of a precondition, a
--   handler and two postconditions, for its value and for its answer, and Session.Service.Steps the
--   runs of a handler whose first calls go on.
--   Session.Gate has the guards that the handlers share and the events that they append,
--   Session.Creation is createSession (sessions.go), Session.Handlers has messages.go, confirm.go,
--   turns.go, abort.go and patch_decision.go, Session.Execution is Run (execution.go), and
--   Session.Shell puts them together, with calls that run between each other's steps in
--   Session.Shell.Interleaved. They ask Policy.Engine for the decision, Policy.ToolLoop for
--   the cap on tool calls, and publish to Stream; the audit log is a list of events that an append
--   extends or leaves, as the stores of Audit do. The orchestrator's answers are an argument.
-- Prelude has the shared names, texts as code points, association lists and list lemmas; Tests has
--   runs of the models on concrete inputs.
--
-- A map is an association list, and a key that is missing is `none`. Times are nanoseconds since the
-- Unix epoch, 0 for the zero time. Recursion is on lists, or on the number of attempts that are left:
-- no other bound is chosen. Locks and transactions make their sections one step. The numbers are
-- unbounded where the source has 64-bit counters of calls or stages. An eviction of old entries, which
-- the source does for all sessions on a read, is done here for the entry that is read.
--
-- strings.ToLower is modelled on the ASCII letters and on the two letters outside ASCII whose lower
-- case is in it; the other letters keep their case, which no comparison with an ASCII text shows; the
-- one comparison of two free texts, that a branch names its work item, is so for an item in ASCII.
--
-- Not modelled: the other writers of the sessions and of the log (delegation, the automatic gateway
-- sessions and the retention of the log), HTTP routing and decoding, SQL itself, JSON and SHA-256,
-- the metrics counters and the lists of sessions, and the parts of the program that are not named above.
pub mod Prelude
pub mod Audit
pub mod Policy
pub mod Composition
pub mod Routing
pub mod Stream
pub mod Session
pub mod Tests
