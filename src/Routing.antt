-- ===== src/Routing.antt =====
-- How a prompt is routed: ai-agent-orch/internal/classifier, and the specialist router of
-- ai-agent-orch/internal/orchestrator/router.go.
pub mod Classifier
pub mod Router
