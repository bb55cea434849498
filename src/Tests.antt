-- ===== src/Tests.antt =====
-- Runs of the modelled code on concrete inputs, and the theorems at such inputs.
pub mod Audit
pub mod Policy
pub mod Composition
pub mod Routing
pub mod Stream
pub mod Session
