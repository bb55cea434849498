-- ===== src/Session.antt =====
-- ai-agent-orch/internal/governance: the sessions of the Governance Shell, from the request that
-- creates one to the execution that it ends in.
pub mod Record
pub mod KillSwitch
pub mod Auth
pub mod Service
pub mod Request
pub mod Gate
pub mod Handlers
pub mod Creation
pub mod Patch
pub mod Execution
pub mod Shell
