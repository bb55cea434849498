-- ===== src/Audit.antt =====
-- ai-agent-orch/internal/audit: the audit event, its hash chain, the SQLite store and the
-- compare-and-append protocol between them.
pub mod Event
pub mod Chain
pub mod Timestamp
pub mod Sqlite
pub mod Appender
