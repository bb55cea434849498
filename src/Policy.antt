-- ===== src/Policy.antt =====
-- ai-agent-orch/internal/policyengine: the native policy engine, the command allow-list and the
-- tool loop counter.
pub mod Classification
pub mod Secrets
pub mod Engine
pub mod Allowlist
pub mod ToolLoop
